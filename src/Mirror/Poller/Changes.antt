-- ===== src/Mirror/Poller/Changes.antt =====
-- A change of a serial is fetched until a refresh succeeds, and then no more: `Poller.cycle` of
-- internal/mirror/poller.go.
use splitdns.Prelude.{
  ℕ, ◌≡◌, refl, ◌∙◌, Bool, true, false, not, Option, some, List, [], ◌∷◌, Instant, Bool-cases, inl,
  inr,
}
use splitdns.Dns.{Name, name_eq, name_eq_iff}
use splitdns.Model.{get, put}
use splitdns.Mirror.Serial.{SerialState, should_fetch, serial_lt_irrefl}
use splitdns.Mirror.Poller.{Poller, state_of, observed, needed, advanced, wants, cycle}

-- What was put under a key is found there, and what is under the others stays.
get-put : {A : Type 0} (k : Name) (a : A) (m : List (Name × A)) → get k (put k a m) ≡ some a
unfolding get put
get-put k a [] = rw ((name_eq_iff k k).1 refl) refl
get-put k a ((n, b) ∷ rest) = elim (Bool-cases (name_eq k n)) [
  | inl e ↦ rw (e, put) (rw e refl)
  | inr e ↦ rw (e, put) (rw e (get-put k a rest))
]

get-put-other :
    {A : Type 0} (j k : Name) (a : A) (m : List (Name × A))
    → name_eq j k ≡ false
    → get j (put k a m) ≡ get j m
unfolding get put
get-put-other j k a [] d = rw d refl
get-put-other j k a ((n, b) ∷ rest) d = elim (Bool-cases (name_eq k n)) [
  | inl e ↦
      let same : k ≡ n = (name_eq_iff k n).0 e in
      let apart : name_eq j n ≡ false = rw same at d in rw (e, put) (rw apart refl)
  | inr e ↦ elim (Bool-cases (name_eq j n)) [
    | inl g ↦ rw (e, put) (rw g refl)
    | inr g ↦ rw (e, put) (rw g (get-put-other j k a rest d))
  ]
]

-- a zone that is not among those that were observed
abbrev IsUnseen : Name → List (Name × ℕ) → Type 0
IsUnseen z [] = Unit
IsUnseen z ((y, _) ∷ rest) = (name_eq z y ≡ false) × IsUnseen z rest

-- no zone was observed twice
abbrev pub IsDistinct : List (Name × ℕ) → Type 0
IsDistinct [] = Unit
IsDistinct ((z, _) ∷ rest) = IsUnseen z rest × IsDistinct rest

abbrev current : ℕ → SerialState
current s = record { last = s; fetched = true }

-- every observed serial is the one that was fetched
abbrev IsCurrent : List (Name × SerialState) → List (Name × ℕ) → Type 0
IsCurrent states [] = Unit
IsCurrent states ((z, s) ∷ rest) = (get z states ≡ some (current s)) × IsCurrent states rest

get-advanced :
    (z : Name) (states : List (Name × SerialState)) (seen : List (Name × ℕ))
    → IsUnseen z seen
    → get z (advanced states seen) ≡ get z states
unfolding advanced
get-advanced z states [] h = refl
get-advanced z states ((y, s) ∷ rest) (d, h) =
    get-advanced z (put y (current s) states) rest h ∙ get-put-other z y (current s) states d

advanced-IsCurrent :
    (states : List (Name × SerialState)) (seen : List (Name × ℕ))
    → IsDistinct seen
    → IsCurrent (advanced states seen) seen
unfolding advanced
advanced-IsCurrent states [] h = tt
advanced-IsCurrent states ((z, s) ∷ rest) (u, d) = (
  get-advanced z (put z (current s) states) rest u ∙ get-put z (current s) states,
  advanced-IsCurrent (put z (current s) states) rest d,
)

current-IsFetched : (s : ℕ) → should_fetch (current s) s ≡ false
unfolding should_fetch
current-IsFetched s = serial_lt_irrefl s

current_not_needed :
    (states : List (Name × SerialState)) (seen : List (Name × ℕ))
    → IsCurrent states seen
    → needed states seen ≡ false
unfolding needed state_of
current_not_needed states [] h = refl
current_not_needed states ((z, s) ∷ rest) (e, h) =
    rw (e, needed) (rw (current-IsFetched s) (current_not_needed states rest h))

-- A serial that calls for a fetch is asked for by each cycle that observes it until a refresh succeeds,
-- whatever the clock reads, and by that one it is settled: a cycle that observes such a serial
-- refreshes, and the same serials call for a fetch afterwards exactly when the refresh failed. No
-- zone is observed twice.
pub needed-cycle :
    (p : Poller) (serials : List (Name × Option ℕ)) (now : Instant) (succeeds : Bool)
    (done : Instant)
    → IsDistinct (observed serials)
    → needed p.states (observed serials) ≡ true
    → ((cycle p serials now succeeds done).refreshed ≡ true)
      × (needed (cycle p serials now succeeds done).poller.states (observed serials) ≡ not succeeds)
unfolding cycle wants
needed-cycle p serials now true done d h =
    rw (h, cycle)
      (
        refl,
        current_not_needed (advanced p.states (observed serials)) (observed serials)
            (advanced-IsCurrent p.states (observed serials) d),
      )
needed-cycle p serials now false done d h = rw (h, cycle) (refl, h)
