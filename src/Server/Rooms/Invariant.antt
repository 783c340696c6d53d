-- ===== src/Server/Rooms/Invariant.antt =====
-- Rooms and sessions agree, whatever comes (src/chatroom/Room.cpp, include/chatroom/Room.h,
-- include/ctrl/Session.h).
use chat_serve.Base.{
  suc, ◌≤◌, ◌<◌, ◌≡◌, refl, ap, Bool, true, false, List, [], ◌∷◌, ◌++◌, some, ◌===◌, nat_eq,
  list_eq, nat_beq_iff, list_beq_iff, length, filter, All, Bool-cases, inl, inr, arith,
}
use chat_serve.Text.{Text}
use chat_serve.Server.State.{Session, ◌is◌, Memory, Entry, set_room}
use chat_serve.Server.Rooms.{max_members}
use chat_serve.Server.Router.{is_blank}
use chat_serve.Server.Router.Delivery.{has_member, Distinct}
use chat_serve.Server.Rooms.Seats.{Seating}
use chat_serve.Server.Rooms.Seating.{seated}

-- The room is the one that every member's session is in.
abbrev pub AreIn : Memory → Text → List Entry → Type 0
AreIn m id = All λ e. m.room e.sess.address ≡ id

abbrev pub IsSeated : Memory → Text → List Entry → Type 0
IsSeated m id es =
    (0 < length es)
    × (length es ≤ max_members)
    × Distinct es
    × AreIn m id es
    × (is_blank id ≡ false)

-- A room has one to nine members, each once, and just those sessions that are in it. Members whose
-- session expired may still be listed.
pub record IsConsistent (v : Seating) : Type 0 where
  pub rooms : (id : Text) (es : List Entry) → v.seats id ≡ some es → IsSeated v.memory id es
  pub sessions :
      (s : Session)
      → is_blank (v.memory.room s.address) ≡ false
      → v.memory.expired s.address ≡ false
      → has_member s (seated (v.seats (v.memory.room s.address))) ≡ true

pub AreIn-filter :
    (m : Memory) (id : Text) (p : Entry → Bool) (es : List Entry)
    → AreIn m id es
    → AreIn m id (filter p es)
AreIn-filter m id p [] h = tt
AreIn-filter m id p (e ∷ es) h = elim (Bool-cases (p e)) [
  | inl kept ↦ rw kept (h.0, AreIn-filter m id p es h.1)
  | inr gone ↦ rw gone (AreIn-filter m id p es h.1)
]

pub length-filter : (p : Entry → Bool) (es : List Entry) → length (filter p es) ≤ length es
length-filter p [] = omega arith
length-filter p (e ∷ es) = ground (arith, length-filter p es)

-- A session in another room is not among the members.
pub elsewhere :
    (m : Memory) (id : Text) (s : Session) (es : List Entry)
    → AreIn m id es
    → (m.room s.address === id) ≡ false
    → has_member s es ≡ false
elsewhere m id s [] h k = refl
elsewhere m id s (e ∷ es) h k = elim (Bool-cases (e.sess is s)) [
  | inl hit ↦
      let same = ap m.room ((nat_beq_iff e.sess.address s.address).0 hit) in
      absurd (ground (arith, same, h.0, list_beq_iff (m.room s.address) id))
  | inr miss ↦ rw miss (elsewhere m id s es h.1 k)
]

-- A change of another session's room
pub AreIn-set_room :
    (m : Memory) (id room : Text) (s : Session) (es : List Entry)
    → has_member s es ≡ false
    → AreIn m id es
    → AreIn (set_room s.address room m) id es
AreIn-set_room m id room s [] h k = tt
AreIn-set_room m id room s (e ∷ es) h k = (
  ground (arith, k.0, nat_beq_iff e.sess.address s.address, nat_beq_iff s.address e.sess.address),
  AreIn-set_room m id room s es (ground arith) k.1,
)

pub AreIn-append :
    (m : Memory) (id : Text) (es : List Entry) (e : Entry)
    → AreIn m id es
    → m.room e.sess.address ≡ id
    → AreIn m id (es ++ e ∷ [])
AreIn-append m id [] e h k = (k, tt)
AreIn-append m id (f ∷ es) e h k = (h.0, AreIn-append m id es e h.1 k)

pub length-append_one : (es : List Entry) (e : Entry) → length (es ++ e ∷ []) ≡ suc (length es)
length-append_one [] e = refl
length-append_one (f ∷ es) e = ap suc (length-append_one es e)
