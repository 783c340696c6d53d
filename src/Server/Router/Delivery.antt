-- ===== src/Server/Router/Delivery.antt =====
-- What a session receives of the frames that a command sends, and who is in a room.
use chat_serve.Base.{
  ◌≡◌, refl, ap, Bool, true, false, not, ◌&&◌, ◌||◌, List, [], ◌∷◌, ◌++◌, if◌then◌else◌, nat_eq,
  nat_beq_iff, filter, arith, Bool-cases, inl, inr,
}
use chat_serve.Text.{Text}
use chat_serve.Server.State.{Session, ◌is◌, Memory, Entry, Payload, text, Down}
use chat_serve.Server.Rooms.{is_held}
use chat_serve.Server.Router.{broadcast_all, broadcast_except}

abbrev pub received_by : Session → List Down → List Payload
received_by s [] = []
received_by s (d ∷ ds) = if d.sess is s then d.payload ∷ received_by s ds else received_by s ds

abbrev pub has_member : Session → List Entry → Bool
has_member s [] = false
has_member s (e ∷ es) = e.sess is s || has_member s es

-- No session is listed twice.
abbrev pub Distinct : List Entry → Type 0
Distinct [] = Unit
Distinct (e ∷ es) = (has_member e.sess es ≡ false) × Distinct es

pub received_by-append :
    (s : Session) (ds es : List Down)
    → received_by s (ds ++ es) ≡ received_by s ds ++ received_by s es
received_by-append s [] es = refl
received_by-append s (d ∷ ds) es = ground (arith, received_by-append s ds es)

pub has_member-same :
    (s t : Session) (es : List Entry) → (s is t) ≡ true → has_member s es ≡ has_member t es
has_member-same s t [] h = refl
has_member-same s t (e ∷ es) h =
    ground (arith, has_member-same s t es h, nat_beq_iff s.address t.address)

pub has_member-held :
    (m : Memory) (s : Session) (es : List Entry)
    → has_member s (filter (is_held m) es) ≡ has_member s es && not (m.expired s.address)
has_member-held m s [] = refl
has_member-held m s (e ∷ es) = elim (Bool-cases (e.sess is s)) [
  | inl hit ↦
      let same = (nat_beq_iff e.sess.address s.address).0 hit in
      ground (arith, has_member-held m s es, ap m.expired same)
  | inr miss ↦ ground (arith, has_member-held m s es)
]

has_member-filter :
    (p : Entry → Bool) (s : Session) (es : List Entry)
    → has_member s es ≡ false
    → has_member s (filter p es) ≡ false
has_member-filter p s [] h = refl
has_member-filter p s (e ∷ es) h = ground (arith, has_member-filter p s es)

pub filter-Distinct : (p : Entry → Bool) (es : List Entry) → Distinct es → Distinct (filter p es)
filter-Distinct p [] h = tt
filter-Distinct p (e ∷ es) h = elim (Bool-cases (p e)) [
  | inl kept ↦ rw kept (has_member-filter p e.sess es h.0, filter-Distinct p es h.1)
  | inr gone ↦ rw gone (filter-Distinct p es h.1)
]

pub has_member-append :
    (s : Session) (es fs : List Entry)
    → has_member s (es ++ fs) ≡ has_member s es || has_member s fs
has_member-append s [] fs = refl
has_member-append s (e ∷ es) fs = ground (arith, has_member-append s es fs)

-- A session that is not there yet may come last.
pub append-Distinct :
    (es : List Entry) (e : Entry)
    → Distinct es
    → has_member e.sess es ≡ false
    → Distinct (es ++ e ∷ [])
append-Distinct [] e h k = (refl, tt)
append-Distinct (f ∷ es) e h k = (
  ground (
    arith,
    has_member-append f.sess es (e ∷ []),
    nat_beq_iff f.sess.address e.sess.address,
    nat_beq_iff e.sess.address f.sess.address,
  ),
  append-Distinct es e h.1 (ground arith),
)

pub received_by-all :
    (s : Session) (es : List Entry) (t : Text)
    → Distinct es
    → received_by s (broadcast_all es t) ≡ (if has_member s es then text t ∷ [] else [])
unfolding broadcast_all
received_by-all s [] t h = refl
received_by-all s (e ∷ es) t h =
    ground (arith, received_by-all s es t h.1, has_member-same e.sess s es)

pub received_by-except :
    (s a : Session) (es : List Entry) (t : Text)
    → Distinct es
    → received_by s (broadcast_except es a t)
      ≡ (if has_member s es && not (s is a) then text t ∷ [] else [])
unfolding broadcast_except
received_by-except s a [] t h = refl
received_by-except s a (e ∷ es) t h = ground (
  arith,
  received_by-except s a es t h.1,
  has_member-same e.sess s es,
  nat_beq_iff e.sess.address s.address,
)
