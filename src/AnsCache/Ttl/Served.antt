-- ===== src/AnsCache/Ttl/Served.antt =====
-- The TTLs on the copies that internal/anscache/anscache.go serves.
use splitdns.Prelude.{
  ℕ, ◌+◌, ◌-◌, ◌/◌, ◌<◌, max, ◌≡◌, refl, ap, List, [], ◌∷◌, map, pos, second, arith, All,
}
use splitdns.Dns.{Rr, Msg}
use splitdns.AnsCache.Ttl.{u32_mod, age_ttl, whole_seconds, with_ttl, on_sections, decrement_ttl}

-- The TTLs of a message are 32-bit numbers.
pub record FitsTtl (m : Msg) : Type 0 where
  pub answer : All (λ (rr : Rr). rr.hdr.ttl < u32_mod) m.answer
  pub ns : All (λ (rr : Rr). rr.hdr.ttl < u32_mod) m.ns
  pub extra : All (λ (rr : Rr). rr.hdr.ttl < u32_mod) m.extra

map-eq {ℓ κ μ} :
    {A : Type ℓ} {B : Type κ} (P : A → Type μ) (f g : A → B) (xs : List A)
    → ((x : A) → P x → f x ≡ g x)
    → All P xs
    → map f xs ≡ map g xs
map-eq P f g [] h a = refl
map-eq P f g (x ∷ xs) h a = λ i. h x a.0 i ∷ map-eq P f g xs h a.1 i

-- The arithmetic of `adjust` on 32-bit numbers is subtraction with a floor of one second.
age_ttl-max :
    (rem ttl : ℕ) → rem + 1 < u32_mod → ttl < u32_mod → age_ttl rem ttl ≡ max 1 (ttl - rem)
unfolding age_ttl
age_ttl-max rem ttl h k = ground arith

-- A fresh answer is served with each TTL reduced by its age in whole seconds, at least 1: wrap-around
-- does not show for an age of less than 2^32 - 1 seconds and TTLs of 32 bits.
pub decrement_ttl-max :
    (n : ℕ) (m : Msg)
    → n / second + 1 < u32_mod
    → FitsTtl m
    → decrement_ttl (pos n) m ≡ on_sections (λ rr. with_ttl (max 1 (rr.hdr.ttl - n / second)) rr) m
unfolding decrement_ttl
decrement_ttl-max n m h f = λ i. record m {
  answer = each m.answer f.answer i;
  ns = each m.ns f.ns i;
  extra = each m.extra f.extra i;
}
  where
    each :
        (rrs : List Rr)
        → All (λ (rr : Rr). rr.hdr.ttl < u32_mod) rrs
        → map (λ (rr : Rr). with_ttl (age_ttl (whole_seconds (pos n)) rr.hdr.ttl) rr) rrs
          ≡ map (λ rr. with_ttl (max 1 (rr.hdr.ttl - n / second)) rr) rrs
    each rrs a = map-eq _ _ _ rrs (λ rr k. ap (λ t. with_ttl t rr) (rem rr k)) a
      where
        rem :
            (rr : Rr)
            → rr.hdr.ttl < u32_mod
            → age_ttl (whole_seconds (pos n)) rr.hdr.ttl ≡ max 1 (rr.hdr.ttl - n / second)
        rem rr k =
            let q : whole_seconds (pos n) ≡ n / second = omega arith in
            rw q (age_ttl-max (n / second) rr.hdr.ttl h k)
