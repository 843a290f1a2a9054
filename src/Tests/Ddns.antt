-- ===== src/Tests/Ddns.antt =====
-- internal/ddns on concrete announcements, queues and logs.
use splitdns.Prelude.{
  ◌≡◌, ◌≢◌, refl, Bool, true, false, Option, none, some, List, [], ◌∷◌, map, All, Instant, seconds,
  arith,
}
use splitdns.Netmatch.{Addr, v4, v6, invalid}
use splitdns.Dns.{Name, name_eq}
use splitdns.Ddns.Plan.{Texts, Record, holds, build_plan}
use splitdns.Ddns.Plan.After.{IsDistinct, after, after-build_plan}
use splitdns.Ddns.Writer.{
  Config, Writer, TokenBucket, Call, update, Change, new_writer, gate, reconcile, has_none,
}
use splitdns.Ddns.Writer.Gates.{gate-IsGated, Safe, reconcile_gates}
use splitdns.Ddns.Writer.Rates.{Turn, take_turn, host_of, IsSilent, per_host_rate}

-- an IPv4 address as one byte and back
abbrev texts : Texts
texts = record {
  show = λ a. elim a [ invalid ↦ [] | v4 n ↦ n ∷ [] | v6 n z ↦ 0 ∷ n ∷ [] ];
  parse = λ s. elim s [ [] ↦ none | n ∷ _ ↦ some (v4 n) ];
  trim = λ s. s;
}

-- 8.8.8.8, 9.9.9.9 and 10.0.0.1
abbrev public_a : Addr
public_a = v4 0x08080808

abbrev public_b : Addr
public_b = v4 0x09090909

abbrev private_c : Addr
private_c = v4 0x0a000001

abbrev edge : Name
edge = b'e' ∷ []

abbrev rr : Record
rr = record {
  name = b'e' ∷ b'.' ∷ [];
  rtype = 1;
  content = 0x08080808 ∷ [];
  zone_id = b'z' ∷ [];
  record_id = b'r' ∷ [];
  proxied = false;
}

abbrev config : Config
config = record {
  enabled = true;
  dry_run = false;
  rate = seconds 60;
  eligible = edge ∷ [];
  global_burst = 2;
  global_refill = seconds 10;
}

abbrev writer : Writer
writer = new_writer config 1

abbrev source : Name → Option (List Record)
source host = some (rr ∷ [])

abbrev all_ok : Call → Bool
all_ok c = true

abbrev change : Change
change = record { host = edge; addrs = private_c ∷ public_b ∷ [] }

writes : (reconcile texts source all_ok writer change 5).calls ≡ update rr public_b ∷ []
unfolding reconcile new_writer
writes = refl

-- a second record, of an address that is announced no more
abbrev old_rr : Record
old_rr = record rr { content = 0x0a000001 ∷ []; record_id = b'o' ∷ [] }

two-IsDistinct : IsDistinct (rr ∷ old_rr ∷ [])
unfolding name_eq
two-IsDistinct = (refl, (refl, tt))

after-build_plan_example :
    holds
      (after texts (build_plan texts rr (old_rr ∷ []) (public_b ∷ [])) (rr ∷ old_rr ∷ []))
      (0x0a000001 ∷ [])
    ≡ holds (map texts.show (public_b ∷ [])) (0x0a000001 ∷ [])
after-build_plan_example =
    after-build_plan texts rr (old_rr ∷ []) (public_b ∷ []) (0x0a000001 ∷ []) two-IsDistinct

reconcile_gates_example :
    let r = reconcile texts source all_ok writer change 5 in
    All (Safe writer.cfg.eligible) r.calls
    × (r.calls ≢ []
        → (writer.cfg.enabled ≡ true)
          × (writer.cfg.dry_run ≡ false)
          × (has_none writer.cfg.eligible ≡ false))
    × (r.writer.cfg ≡ writer.cfg)
unfolding new_writer
reconcile_gates_example = reconcile_gates texts source all_ok writer change 5 (gate-IsGated config)

some_calls : (reconcile texts source all_ok writer change 5).calls ≢ []
unfolding reconcile new_writer
some_calls h = cc h

-- an announcement at a time, and one for another host
abbrev turn_at : Instant → Turn
turn_at t = record { change = change; source = source; succeeds = all_ok; time = t }

abbrev other_at : Instant → Turn
other_at t = record (turn_at t) { change = record change { host = b'o' ∷ [] } }

per_host_rate_example :
    IsSilent texts
      (host_of texts change)
      (take_turn texts writer (turn_at 5)).writer
      (other_at 6 ∷ turn_at 40_000_000_000 ∷ [])
unfolding new_writer gate
per_host_rate_example =
    per_host_rate texts writer (turn_at 5) (other_at 6 ∷ turn_at 40_000_000_000 ∷ []) some_calls
      (omega arith) (omega arith, (omega arith, tt))

abbrev bucket : TokenBucket
bucket = record { cap = 20; tokens = 20; refill_per = 10; last = 1 }
