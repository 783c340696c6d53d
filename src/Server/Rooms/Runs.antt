-- ===== src/Server/Rooms/Runs.antt =====
-- The server from its start: events of sessions (src/app/AppHandler.cpp), and what the rest of the
-- server does to sessions in between (include/ctrl/Session.h).
use chat_serve.Base.{
  ℕ, ◌≡◌, ap, sym, subst, Bool, true, false, ◌&&◌, List, [], ◌∷◌, none, some, if◌then◌else◌, ◌===◌,
  nat_eq, list_eq, lookup, Bool-cases, inl, inr, arith,
}
use chat_serve.Server.Parser.{AppMessage, parse}
use chat_serve.Server.State.{Session, Memory, Server}
use chat_serve.Server.Router.{param, is_blank}
use chat_serve.Server.Files.{Draw}
use chat_serve.Server.Events.{Up, ws_text, ws_binary, closed, handle_up}
use chat_serve.Server.Rooms.Seats.{Seating, seating}
use chat_serve.Server.Rooms.Seating.{is_join, seat_step}
use chat_serve.Server.Rooms.Refine.{handle_up-seats}
use chat_serve.Server.Rooms.Invariant.{IsConsistent}
use chat_serve.Server.Rooms.Kept.{join_seats-IsConsistent}
use chat_serve.Server.Rooms.Leaving.{leave_seats-IsConsistent}

pub data Event : Type 0 where
  -- a message or the end of a session, with what the clock and the generator give meanwhile
  session : (ℕ → Draw) → Session → Up → Event
  -- the io thread closes the connection of the session at this address
  shuts : ℕ → Event
  -- the last owner of the session lets go of it
  expires : ℕ → Event

abbrev pub shut : ℕ → Memory → Memory
shut a m = record m { alive = λ b. if a === b then false else m.alive b }

abbrev pub expire : ℕ → Memory → Memory
expire a m = record m { expired = λ b. if a === b then true else m.expired b }

unfoldable pub step : Server → Event → Server
step sv (session draws sess up) = (handle_up draws sv sess up).0
step sv (shuts a) = record sv { memory = shut a sv.memory }
step sv (expires a) = record sv { memory = expire a sv.memory }

unfoldable pub run : Server → List Event → Server
unfolding step
run sv [] = sv
run sv (e ∷ es) = run (step sv e) es

-- No room, and sessions that are in none. An address stands for one session only.
abbrev pub started : Server
started = record {
  rooms = [];
  memory = record { alive = λ a. true; room = λ a. []; expired = λ a. false };
}

is_join-inv :
    (v : Seating) (sess : Session) (msg : AppMessage)
    → is_join v sess msg ≡ true
    → (is_blank (v.memory.room sess.address) ≡ true) × (is_blank (param msg 0) ≡ false)
is_join-inv v sess msg h = (ground arith, ground arith)

seat_step-IsConsistent :
    (v : Seating) (sess : Session) (up : Up) → IsConsistent v → IsConsistent (seat_step v sess up)
seat_step-IsConsistent v sess (ws_text s) h =
    elim (Bool-cases (v.memory.alive sess.address && is_join v sess (parse s))) [
      | inl join ↦
          let (away, named) = is_join-inv v sess (parse s) (ground arith) in
          rw join
            (join_seats-IsConsistent v sess h (param (parse s) 0) (param (parse s) 1) away named)
      | inr miss ↦ rw miss h
    ]
seat_step-IsConsistent v sess (ws_binary bytes) h = h
seat_step-IsConsistent v sess closed h = leave_seats-IsConsistent v sess h

expire-IsConsistent :
    (v : Seating) (a : ℕ) → IsConsistent v → IsConsistent (record v { memory = expire a v.memory })
expire-IsConsistent v a h = record {
  rooms = h.rooms;
  sessions = λ s n k. h.sessions s n (ground arith);
}

step-IsConsistent :
    (sv : Server) (e : Event) → IsConsistent (seating sv) → IsConsistent (seating (step sv e))
unfolding step
step-IsConsistent sv (session draws sess up) h =
    subst IsConsistent (sym (handle_up-seats sv sess draws up))
      (seat_step-IsConsistent (seating sv) sess up h)
step-IsConsistent sv (shuts a) h = record { rooms = h.rooms; sessions = h.sessions }
step-IsConsistent sv (expires a) h = expire-IsConsistent (seating sv) a h

run_from-IsConsistent :
    (sv : Server) (es : List Event) → IsConsistent (seating sv) → IsConsistent (seating (run sv es))
unfolding run
run_from-IsConsistent sv [] h = h
run_from-IsConsistent sv (e ∷ es) h =
    run_from-IsConsistent (step sv e) es (step-IsConsistent sv e h)

-- From the start of the server on, whatever messages, chunks and ends of sessions come in any
-- order, and whichever connections close and sessions expire in between: every room has one to
-- nine members and lists none twice, each of them being in that room and in no other, and every
-- session that is in a room and has not expired is among its members.
pub run-IsConsistent : (es : List Event) → IsConsistent (seating (run started es))
unfolding lookup
run-IsConsistent es = run_from-IsConsistent started es (record {
  rooms = λ id es e. absurd (
      let b : true ≡ false = ap (λ o. elim o as (λ _. Bool) [ none ↦ true | some _ ↦ false ]) e in
      cc);
  sessions = λ s n k. absurd (let b : true ≡ false = n in cc);
})
