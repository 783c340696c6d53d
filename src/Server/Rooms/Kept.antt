-- ===== src/Server/Rooms/Kept.antt =====
-- Joining and leaving keep rooms and sessions in agreement (src/chatroom/Room.cpp,
-- src/app/AppRouter.cpp).
use chat_serve.Base.{
  ◌≤◌, ◌≡◌, refl, sym, subst, true, false, List, [], ◌∷◌, ◌++◌, Option, none, some, ◌===◌, nat_eq,
  list_eq, nat_beq_iff, list_beq_iff, length, ltb, ltb→lt, filter, Bool-cases, inl, inr, arith,
}
use chat_serve.Text.{Text}
use chat_serve.Server.State.{Session, ◌is◌, Memory, Entry, set_room}
use chat_serve.Server.Rooms.{max_members, is_held}
use chat_serve.Server.Router.{is_blank}
use chat_serve.Server.Router.Delivery.{
  has_member, Distinct, has_member-held, has_member-append, filter-Distinct, append-Distinct,
}
use chat_serve.Server.Rooms.Seats.{Seating}
use chat_serve.Server.Rooms.Seating.{seated, set_seats, join_seats}
use chat_serve.Server.Rooms.Invariant.{
  AreIn, IsSeated, IsConsistent, AreIn-filter, length-filter, elsewhere, AreIn-set_room,
  AreIn-append, length-append_one,
}

-- A property of the members of every room, when one room changes
pub set_seats-all :
    (P : Text → List Entry → Type 0) (id : Text) (o : Option (List Entry))
    (seats : Text → Option (List Entry))
    → ((es : List Entry) → o ≡ some es → P id es)
    → ((j : Text) (es : List Entry) → (id === j) ≡ false → seats j ≡ some es → P j es)
    → (j : Text) (es : List Entry) → set_seats id o seats j ≡ some es
    → P j es
set_seats-all P id o seats h k j es e = elim (Bool-cases (id === j)) [
  | inl hit ↦ let same = (list_beq_iff id j).0 hit in subst (λ i. P i es) same (h es (rw hit at e))
  | inr miss ↦ k j es miss (rw miss at e)
]

pub some-injective {ℓ} : {A : Type ℓ} {a b : A} → some a ≡ some b → a ≡ b
some-injective e = cc

-- A room that is not there has no members.
abbrev pub AreGood : Memory → Text → List Entry → Type 0
AreGood m id es = (length es ≤ max_members) × Distinct es × AreIn m id es

pub seated-good :
    (m : Memory) (id : Text) (o : Option (List Entry))
    → ((es : List Entry) → o ≡ some es → IsSeated m id es)
    → AreGood m id (seated o)
seated-good m id none h = (omega arith, tt, tt)
seated-good m id (some es) h = let k = h es refl in (k.1, k.2, k.3)

pub is_blank-ne : (s t : Text) → is_blank s ≡ true → is_blank t ≡ false → (s === t) ≡ false
is_blank-ne [] [] h k = cc
is_blank-ne [] (c ∷ t) h k = refl
is_blank-ne (c ∷ s) t h k = absurd (cc)

abbrev pub live_in : Seating → Text → List Entry
live_in v room = filter (is_held v.memory) (seated (v.seats room))

pub seat_found :
    (t : Session) (id j : Text) (o : Option (List Entry)) (seats : Text → Option (List Entry))
    → (id ≡ j → has_member t (seated o) ≡ true)
    → ((id === j) ≡ false → has_member t (seated (seats j)) ≡ true)
    → has_member t (seated (set_seats id o seats j)) ≡ true
seat_found t id j o seats h k = elim (Bool-cases (id === j)) [
  | inl hit ↦ rw hit (h ((list_beq_iff id j).0 hit))
  | inr miss ↦ rw miss (k miss)
]

module _ (v : Seating) (s : Session) (h : IsConsistent v) where
  -- The members of a room that the session is not in, when its own room changes
  pub other-IsSeated :
      (room j : Text) (es : List Entry)
      → (v.memory.room s.address === j) ≡ false
      → IsSeated v.memory j es
      → IsSeated (set_room s.address room v.memory) j es
  other-IsSeated room j es k g =
      let away = elsewhere v.memory j s es g.3 k in
      (g.0, g.1, g.2, AreIn-set_room v.memory j room s es away g.3, g.4)

  module _ (room nick : Text) (away : is_blank (v.memory.room s.address) ≡ true)
      (named : is_blank room ≡ false) where
    joined-IsSeated :
        ltb (length (live_in v room)) max_members ≡ true
        → IsSeated
            (set_room s.address room v.memory)
            room
            ((live_in v room) ++ record { sess = s; nick = nick } ∷ [])
    joined-IsSeated free =
        let good = seated-good v.memory room (v.seats room) (h.rooms room) in
        let here = AreIn-filter v.memory room (is_held v.memory) (seated (v.seats room)) good.2 in
        let ne = is_blank-ne (v.memory.room s.address) room away named in
        let absent = elsewhere v.memory room s (live_in v room) here ne in
        let x : Entry = record { sess = s; nick = nick } in
        (
          omega (arith, length-append_one (live_in v room) x),
          omega (
            arith,
            length-append_one (live_in v room) x,
            ltb→lt (length (live_in v room)) max_members free,
          ),
          append-Distinct (live_in v room) x
              (filter-Distinct (is_held v.memory) (seated (v.seats room)) good.1) absent,
          AreIn-append (set_room s.address room v.memory) room (live_in v room) x
              (AreIn-set_room v.memory room room s (live_in v room) absent here)
              (ground (arith, nat_beq_iff s.address s.address)),
          named,
        )

    full-IsSeated :
        ltb (length (live_in v room)) max_members ≡ false → IsSeated v.memory room (live_in v room)
    full-IsSeated full =
        let good = seated-good v.memory room (v.seats room) (h.rooms room) in
        let es = seated (v.seats room) in
        (
          ground arith,
          omega (arith, good.0, length-filter (is_held v.memory) es),
          filter-Distinct (is_held v.memory) es good.1,
          AreIn-filter v.memory room (is_held v.memory) es good.2,
          named,
        )

    -- A session that is in the room and has not expired keeps its place.
    live_in-keep :
        (t : Session)
        → v.memory.room t.address ≡ room
        → v.memory.expired t.address ≡ false
        → has_member t (live_in v room) ≡ true
    live_in-keep t e k =
        let n : is_blank (v.memory.room t.address) ≡ false = rw e named in
        let there = h.sessions t n k in
        rw (has_member-held v.memory t (seated (v.seats room)), k) (ground (arith, rw e at there))

    joined-seat :
        (t : Session)
        → is_blank ((set_room s.address room v.memory).room t.address) ≡ false
        → v.memory.expired t.address ≡ false
        → has_member t (
            seated (
              set_seats room
                (some (live_in v room ++ record { sess = s; nick = nick } ∷ []))
                v.seats
                ((set_room s.address room v.memory).room t.address)))
          ≡ true
    joined-seat t n k =
        let x : Entry = record { sess = s; nick = nick } in
        let o = some (live_in v room ++ x ∷ []) in
        elim (Bool-cases (s is t)) [
          | inl hit ↦ rw hit (
              seat_found t room room o v.seats
                (λ e. ground (arith, has_member-append t (live_in v room) (x ∷ []), hit))
                (λ ne. absurd (ground (arith, list_beq_iff room room))))
          | inr miss ↦
              let stays = rw miss at n in
              rw miss (
                seat_found t room (v.memory.room t.address) o v.seats
                  (λ e. ground (
                    arith,
                    has_member-append t (live_in v room) (x ∷ []),
                    live_in-keep t (sym e) k,
                  ))
                  (λ ne. h.sessions t stays k))
        ]

    joined-IsConsistent :
        ltb (length (live_in v room)) max_members ≡ true
        → IsConsistent (record {
          seats =
              set_seats room
                (some (live_in v room ++ record { sess = s; nick = nick } ∷ []))
                v.seats;
          memory = set_room s.address room v.memory;
        })
    joined-IsConsistent free =
        let x : Entry = record { sess = s; nick = nick } in
        let m = set_room s.address room v.memory in
        record {
          rooms =
              set_seats-all (IsSeated m) room (some (live_in v room ++ x ∷ [])) v.seats
                (λ es e. subst (IsSeated m room) (some-injective e) (joined-IsSeated free))
                (λ j es ne e.
                  let g = h.rooms j es e in
                  other-IsSeated room j es (is_blank-ne (v.memory.room s.address) j away g.4) g);
          sessions = joined-seat;
        }

    full-IsConsistent :
        ltb (length (live_in v room)) max_members ≡ false
        → IsConsistent (record v { seats = set_seats room (some (live_in v room)) v.seats })
    full-IsConsistent full = record {
      rooms =
          set_seats-all (IsSeated v.memory) room (some (live_in v room)) v.seats
            (λ es e. subst (IsSeated v.memory room) (some-injective e) (full-IsSeated full))
            (λ j es ne e. h.rooms j es e);
      sessions = λ t n k.
          seat_found t room (v.memory.room t.address) (some (live_in v room)) v.seats
            (λ e. live_in-keep t (sym e) k) (λ ne. h.sessions t n k);
    }

    pub join_seats-IsConsistent : IsConsistent (join_seats v s room nick)
    join_seats-IsConsistent = elim (Bool-cases (ltb (length (live_in v room)) max_members)) [
      | inl free ↦ rw free (joined-IsConsistent free)
      | inr full ↦ rw full (full-IsConsistent full)
    ]
