-- ===== src/Tests/LogLimit.antt =====
-- internal/loglimit on concrete messages.
use splitdns.Prelude.{◌≡◌, refl, some, List, [], ◌∷◌, seconds, arith}
use splitdns.Dns.{Name}
use splitdns.LogLimit.{
  Handler, Event, new_handler, handle, handle_entry, find, set, step, make_room, handle_all,
  emissions, occurrences,
}
use splitdns.LogLimit.Floods.{one_per_interval}

abbrev limiter : Handler
limiter = new_handler (seconds 10) 2

abbrev flood : Name
flood = b'f' ∷ []

abbrev lone : Name
lone = b'x' ∷ []

-- a flood at one message a second, with another message in it
abbrev messages : List Event
messages =
    record { key = flood; time = 1_000_000_000 }
    ∷ record { key = lone; time = 2_000_000_000 }
    ∷ record { key = flood; time = 3_000_000_000 }
    ∷ []

emits_others : emissions lone (handle limiter flood 0).0 messages ≡ 1
unfolding emissions handle new_handler make_room handle_entry find set step
emits_others = refl

first : (handle limiter flood 0).1 ≡ some 0
unfolding handle new_handler make_room handle_entry find set step
first = refl

one_per_interval_example :
    (emissions flood (handle limiter flood 0).0 messages ≡ 0)
    × ((handle (handle_all (handle limiter flood 0).0 messages) flood 10_000_000_000).1
        ≡ some (occurrences flood messages))
unfolding handle new_handler make_room handle_entry find set step
one_per_interval_example =
    one_per_interval limiter flood 0 10_000_000_000 0 messages (omega arith) first (ground arith)
      (ground arith) (omega arith)
