-- ===== src/Server/Files.antt =====
-- `TransferManager`: the handles of files and their registration
-- (src/chatroom/TransferManager.cpp).
use chat_serve.Base.{
  ℕ, zero, suc, ◌+◌, List, [], ◌∷◌, ◌++◌, Option, none, some, if◌then◌else◌, ltb, ◌===◌, nat_eq,
  list_eq, Dict, lookup, insert,
}
use chat_serve.Text.{Text, lit}
use chat_serve.Text.Number.{show}
use chat_serve.Server.State.{Session, FileRegistration, TransferManager}

-- What a call of `create_file_id` reads: the clock in seconds and nanoseconds, and a number below
-- 10000 of the generator.
pub record Draw : Type 0 where
  pub seconds : ℕ
  pub nanoseconds : ℕ
  pub random : ℕ

-- `setw(4)` with `setfill('0')`
abbrev padded : ℕ → Text
padded r =
    if ltb r 10
    then lit "000" ++ show r
    else if ltb r 100
    then lit "00" ++ show r
    else if ltb r 1000
    then lit "0" ++ show r
    else show r

unfoldable pub create_file_id : Draw → Text
create_file_id d =
    lit "f_" ++ (show d.seconds ++ (show d.nanoseconds ++ (lit "_" ++ padded d.random)))

-- The loop of `create_unique_file_id` from an attempt on; the empty text where it fails
unfoldable pub try_file_ids : ℕ → ℕ → (ℕ → Draw) → Dict Text FileRegistration → Text
unfolding create_file_id
try_file_ids zero attempt draws registrations = []
try_file_ids (suc left) attempt draws registrations =
    elim (lookup (create_file_id (draws attempt)) registrations) [
      | none ↦ create_file_id (draws attempt)
      | some _ ↦ try_file_ids left (attempt + 1) draws registrations
    ]

unfoldable pub create_unique_file_id : (ℕ → Draw) → Dict Text FileRegistration → Text
unfolding try_file_ids
create_unique_file_id = try_file_ids 32 0

-- `map[key].push_back(v)`
unfoldable pub push_ref {ℓ} : {V : Type ℓ} → ℕ → V → Dict ℕ (List V) → Dict ℕ (List V)
push_ref key v refs = elim (lookup key refs) [
  | none ↦ insert key (v ∷ []) refs
  | some vs ↦ insert key (vs ++ v ∷ []) refs
]

-- The handle of the file; the empty text where it is rejected
unfoldable pub register_file :
    (ℕ → Draw) → Text → ℕ → Session → TransferManager → TransferManager × Text
unfolding create_unique_file_id push_ref
register_file draws filename filesize uploader tm =
    if filesize === 0 then (tm, []) else elim (create_unique_file_id draws tm.registrations) [
      | [] ↦ (tm, [])
      | c ∷ s ↦
          let file_id = c ∷ s in
          let reg : FileRegistration = record {
            file_id = file_id;
            filename = filename;
            filesize = filesize;
            uploader = uploader;
          } in
          (
            record tm {
              registrations = insert file_id reg tm.registrations;
              uploader_files = push_ref uploader.address file_id tm.uploader_files;
            },
            file_id,
          )
    ]

unfoldable pub find_registration : Text → TransferManager → Option FileRegistration
find_registration file_id tm = lookup file_id tm.registrations
