-- ===== src/Ddns/Plan/Lists.antt =====
-- Lists of texts in internal/ddns/ddns.go: what filtering, sorting and pairing keep.
use splitdns.Prelude.{
  ◌≡◌, refl, ◌∙◌, ap, Bool, true, not, ◌||◌, List, [], ◌∷◌, ◌++◌, map, if◌then◌else◌, filter, arith,
  Bool-cases, inl, inr,
}
use splitdns.Dns.{Name, name_eq}
use splitdns.Ddns.Plan.{holds, insert_by, sort_by}

module _ {A : Type 0} (f : A → Name) (s : Name) where
  pub holds-append :
      (xs ys : List A) → holds (map f (xs ++ ys)) s ≡ (holds (map f xs) s || holds (map f ys) s)
  holds-append [] ys = refl
  holds-append (x ∷ xs) ys = elim (Bool-cases (name_eq s (f x))) [
    | inl h ↦ rw h refl
    | inr h ↦ rw h (holds-append xs ys)
  ]

  holds-insert :
      (lt : A → A → Bool) (x : A) (l : List A)
      → holds (map f (insert_by lt x l)) s ≡ holds (map f (x ∷ l)) s
  unfolding insert_by
  holds-insert lt x [] = refl
  holds-insert lt x (y ∷ l) = elim (Bool-cases (lt y x)) [
    | inl h ↦
        let rest = holds-insert lt x l in
        elim (Bool-cases (name_eq s (f y))) [
          | inl g ↦ elim (Bool-cases (name_eq s (f x))) [
            | inl e ↦ rw h (rw (g, e) refl)
            | inr e ↦ rw h (rw (g, e) refl)
          ]
          | inr g ↦ rw h (rw g rest)
        ]
    | inr h ↦ rw h refl
  ]

  pub holds-sort :
      (lt : A → A → Bool) (l : List A) → holds (map f (sort_by lt l)) s ≡ holds (map f l) s
  unfolding sort_by
  holds-sort lt [] = refl
  holds-sort lt (x ∷ l) =
      holds-insert lt x (sort_by lt l)
      ∙ ap (λ b. if name_eq s (f x) then true else b) (holds-sort lt l)

  -- a list is split in two by a test
  pub holds-split :
      (p : A → Bool) (l : List A)
      → (holds (map f (filter (λ x. not (p x)) l)) s || holds (map f (filter p l)) s)
        ≡ holds (map f l) s
  holds-split p [] = refl
  holds-split p (x ∷ l) =
      let rest = holds-split p l in
      elim (Bool-cases (p x)) [
        | inl h ↦ elim (Bool-cases (name_eq s (f x))) [
          | inl g ↦ rw h (rw g (ground arith))
          | inr g ↦ rw h (rw g rest)
        ]
        | inr h ↦ elim (Bool-cases (name_eq s (f x))) [
          | inl g ↦ rw h (rw g refl)
          | inr g ↦ rw h (rw g rest)
        ]
      ]
