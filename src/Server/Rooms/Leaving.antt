-- ===== src/Server/Rooms/Leaving.antt =====
-- The end of a session keeps rooms and sessions in agreement (src/chatroom/Room.cpp,
-- src/app/AppRouter.cpp).
use chat_serve.Base.{
  ◌<◌, ◌≡◌, refl, ap, subst, true, false, not, ◌&&◌, List, [], ◌∷◌, some, ◌===◌, nat_eq, list_eq,
  nat_beq_iff, length, filter, Bool-cases, Option-cases, inl, inr, arith,
}
use chat_serve.Text.{Text}
use chat_serve.Server.State.{Session, ◌is◌, Memory, Entry, set_room}
use chat_serve.Server.Router.{is_blank}
use chat_serve.Server.Router.Delivery.{has_member, filter-Distinct}
use chat_serve.Server.Rooms.Seats.{Seating}
use chat_serve.Server.Rooms.Seating.{seated, set_seats, stays_behind, or_none, leave_seats}
use chat_serve.Server.Rooms.Invariant.{
  IsSeated, IsConsistent, AreIn-filter, length-filter, AreIn-set_room,
}
use chat_serve.Server.Rooms.Kept.{
  set_seats-all, seated-good, other-IsSeated, seat_found, some-injective,
}

or_none-some : (ks es : List Entry) → or_none ks ≡ some es → (ks ≡ es) × (0 < length ks)
or_none-some [] es h = absurd (cc)
or_none-some (k ∷ ks) es h = (some-injective h, omega arith)

seated-or_none : (ks : List Entry) → seated (or_none ks) ≡ ks
seated-or_none [] = refl
seated-or_none (k ∷ ks) = refl

-- Who stays behind is who was there, has not expired and is another one.
pub has_member-behind :
    (m : Memory) (s t : Session) (es : List Entry)
    → has_member t (filter (stays_behind m s) es)
      ≡ has_member t es && not (m.expired t.address) && not (t is s)
has_member-behind m s t [] = refl
has_member-behind m s t (e ∷ es) = elim (Bool-cases (e.sess is t)) [
  | inl hit ↦
      let same = (nat_beq_iff e.sess.address t.address).0 hit in
      ground (arith, has_member-behind m s t es, ap m.expired same, ap (λ a. a === s.address) same)
  | inr miss ↦ ground (arith, has_member-behind m s t es)
]

named_room :
    (v : Seating) (id : Text)
    → IsConsistent v
    → 0 < length (seated (v.seats id))
    → is_blank id ≡ false
named_room v id h k = elim (Option-cases (v.seats id)) [
  | inl e ↦ absurd (omega (arith, rw e at k))
  | inr (es, e) ↦ (h.rooms id es e).4
]

abbrev pub left_behind : Seating → Session → List Entry
left_behind v s = filter (stays_behind v.memory s) (seated (v.seats (v.memory.room s.address)))

module _ (v : Seating) (s : Session) (h : IsConsistent v) where
  behind-IsSeated :
      0 < length (left_behind v s)
      → IsSeated (set_room s.address [] v.memory) (v.memory.room s.address) (left_behind v s)
  behind-IsSeated k =
      let id = v.memory.room s.address in
      let es = seated (v.seats id) in
      let p = stays_behind v.memory s in
      let good = seated-good v.memory id (v.seats id) (h.rooms id) in
      let gone : has_member s (left_behind v s) ≡ false =
        ground (arith, has_member-behind v.memory s s es, nat_beq_iff s.address s.address) in
      (
        k,
        omega (arith, good.0, length-filter p es),
        filter-Distinct p es good.1,
        AreIn-set_room v.memory id [] s (left_behind v s) gone
            (AreIn-filter v.memory id p es good.2),
        named_room v id h (omega (arith, k, length-filter p es)),
      )

  left-seat :
      (t : Session)
      → is_blank ((set_room s.address [] v.memory).room t.address) ≡ false
      → v.memory.expired t.address ≡ false
      → has_member t (
          seated (
            set_seats
              (v.memory.room s.address)
              (or_none (left_behind v s))
              v.seats
              ((set_room s.address [] v.memory).room t.address)))
        ≡ true
  left-seat t n k =
      let id = v.memory.room s.address in
      elim (Bool-cases (s is t)) [
        | inl hit ↦ absurd (let b : true ≡ false = rw hit at n in cc)
        | inr miss ↦
            let stays = rw miss at n in
            let there = h.sessions t stays k in
            rw miss (
              seat_found t id (v.memory.room t.address) (or_none (left_behind v s)) v.seats
                (λ e.
                  let here : has_member t (seated (v.seats id)) ≡ true = rw e there in
                  rw (seated-or_none (left_behind v s)) (
                    ground (
                      arith,
                      has_member-behind v.memory s t (seated (v.seats id)),
                      here,
                      nat_beq_iff s.address t.address,
                      nat_beq_iff t.address s.address,
                    )))
                (λ ne. there))
      ]

  pub leave_seats-IsConsistent : IsConsistent (leave_seats v s)
  leave_seats-IsConsistent =
      let id = v.memory.room s.address in
      let m = set_room s.address [] v.memory in
      record {
        rooms =
            set_seats-all (IsSeated m) id (or_none (left_behind v s)) v.seats
              (λ es e.
                let (same, k) = or_none-some (left_behind v s) es e in
                subst (IsSeated m id) same (behind-IsSeated k))
              (λ j es ne e. other-IsSeated v s h [] j es ne (h.rooms j es e));
        sessions = left-seat;
      }
