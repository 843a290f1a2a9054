-- ===== src/Mirror/Poller.antt =====
-- `Poller.cycle` of internal/mirror/poller.go, over the serial states of `Serial`: what the serial
-- queries answered, whether the refresh succeeds and the readings of the clock are arguments.
pub mod Changes
use splitdns.Prelude.{
  ℕ, Bool, true, false, ◌&&◌, ◌||◌, not, Option, none, some, List, [], ◌∷◌, if◌then◌else◌, ◌==◌,
  leb_ℤ, since, Instant, Duration,
}
use splitdns.Dns.{Name}
use splitdns.Model.{get, put}
use splitdns.Mirror.Serial.{SerialState, should_fetch}

-- `Poller`, with what a cycle reads and changes
pub record Poller : Type 0 where
  pub states : List (Name × SerialState)
  pub forced : Duration
  pub last_full : Instant

abbrev unknown : SerialState
unknown = record { last = 0; fetched = false }

abbrev or_unknown : Option SerialState → SerialState
or_unknown none = unknown
or_unknown (some s) = s

-- `p.states[z]`
unfoldable pub state_of : List (Name × SerialState) → Name → SerialState
unfolding get
state_of states z = or_unknown (get z states)

-- the serials of the zones that answered
unfoldable pub observed : List (Name × Option ℕ) → List (Name × ℕ)
observed [] = []
observed ((z, none) ∷ rest) = observed rest
observed ((z, some s) ∷ rest) = (z, s) ∷ observed rest

-- some serial that was observed calls for a fetch
unfoldable pub needed : List (Name × SerialState) → List (Name × ℕ) → Bool
unfolding state_of should_fetch
needed states [] = false
needed states ((z, s) ∷ rest) =
    let later = needed states rest in if should_fetch (state_of states z) s then true else later

-- the states after a refresh
unfoldable pub advanced : List (Name × SerialState) → List (Name × ℕ) → List (Name × SerialState)
unfolding put
advanced states [] = states
advanced states ((z, s) ∷ rest) = advanced (put z (record { last = s; fetched = true }) states) rest

abbrev is_nil {ℓ} : {A : Type ℓ} → List A → Bool
is_nil [] = true
is_nil (_ ∷ _) = false

-- whether `cycle` asks for a refresh
unfoldable pub wants : Poller → List (Name × ℕ) → Instant → Bool
unfolding needed
wants p seen now =
    let first = p.last_full == 0 in
    needed p.states seen
    || ((not first && leb_ℤ p.forced (since now p.last_full)) || (first && not (is_nil seen)))

-- What a cycle did: whether it asked for a refresh, and whether it confirmed the mirror.
pub record Cycle : Type 0 where
  pub poller : Poller
  pub refreshed : Bool
  pub confirmed : Bool

-- `cycle`; `done` is the reading of the clock behind a refresh
unfoldable pub cycle : Poller → List (Name × Option ℕ) → Instant → Bool → Instant → Cycle
unfolding observed wants advanced
cycle p serials now succeeds done =
    let seen = observed serials in
    if not (wants p seen now)
    then record { poller = p; refreshed = false; confirmed = not (is_nil seen) }
    else if not succeeds
    then record { poller = p; refreshed = true; confirmed = false }
    else record {
      poller = record p { states = advanced p.states seen; last_full = done };
      refreshed = true;
      confirmed = true;
    }
