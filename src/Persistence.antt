-- ===== src/Persistence.antt =====
-- src/jamp/runtime/persistence.py: the three append-only files of `AuditPersistence`, each a hash chain. A
-- file is the lines that a newline ends and the text behind the last newline, to which a write adds. `json.dumps`
-- and `json.loads` on a line and SHA-256 are a parameter `Lines`.
pub mod Chain
pub mod Append
pub mod Reads
pub mod Writes
pub mod Owner
pub mod Glued
mod Tests
use Prim.Native.String
use jamp.Prelude.{
  String, ◌≡◌, Bool, true, false, not, ◌&&◌, ◌||◌, Option, none, some, List, [], ◌∷◌, ◌++◌, Except,
  ok, err, ◌>>=◌, ◌>>◌, require, refuse_if, ◌==◌, if◌then◌else◌,
}
use jamp.Prelude.Text.{nonempty, is_blank}
use jamp.Prelude.Dict.{Dict, lookup, has_key, insert, without, DistinctKeys}
use jamp.Canonical.{Json, jstr}

-- A value that is written and read again; an object comes back with its keys in order.
abbrev pub reread_option : (Json → Json) → Option Json → Option Json
reread_option f none = none
reread_option f (some v) = some (f v)

abbrev pub Record : Type 0
Record = Dict Json

-- `r` is what comes back of `d`.
abbrev pub Reread : (Json → Json) → Record → Record → Type 0
Reread f d r = DistinctKeys r × ((k : String) → lookup k r ≡ reread_option f (lookup k d))

-- `dumps` writes a record on a line, its keys sorted; `loads` is `none` where `json.loads` raises or returns
-- no dict; `sha256` is the digest of the compact `json.dumps` of a record, its keys sorted; `glue` puts one text
-- behind another, with no newline between. What was written comes back but for the order of keys, on a line that
-- is not blank, and a digest does not depend on that order. A text is blank when both its parts are, and
-- `json.loads` raises ("Extra data") on an object that stands behind another.
pub record Lines (Line : Type 0) : Type 0 where
  pub dumps : Record → Line
  pub loads : Line → Option Record
  pub blank : Line → Bool
  pub empty : Line
  pub glue : Line → Line → Line
  pub sha256 : Record → String
  pub reread : Json → Json
  pub reread-jstr : (s : String) → reread (jstr s) ≡ jstr s
  pub blank-dumps : (d : Record) → blank (dumps d) ≡ false
  pub loads-dumps :
      (d : Record) → DistinctKeys d → (r : Record) × (loads (dumps d) ≡ some r) × Reread reread d r
  pub blank-empty : blank empty ≡ true
  pub blank-glue : (l m : Line) → blank (glue l m) ≡ (blank l && blank m)
  pub glue-empty : (l : Line) → glue empty l ≡ l
  pub loads-glue : (l : Line) (r d : Record) → loads l ≡ some r → loads (glue l (dumps d)) ≡ none
  pub sha256-Reread : (d r : Record) → DistinctKeys d → Reread reread d r → sha256 r ≡ sha256 d

-- A file: the lines that a newline ends, and the text behind the last newline.
pub record File (Line : Type 0) : Type 0 where
  pub complete : List Line
  pub rest : Line

pub data PersistenceError : Type 0 where
  not_json legacy_after_chain chain_broken hash_mismatch : PersistenceError
  missing_trace_id bad_organization_id : PersistenceError

abbrev pub Stored : Type 0 → Type 0
Stored A = Except PersistenceError A

abbrev pub genesis_hash : String
genesis_hash = "sha256:0000000000000000000000000000000000000000000000000000000000000000"

-- `r.get(k) == s`
abbrev pub is_text : Option Json → String → Bool
is_text (some (jstr t)) s = t == s
is_text other s = false

-- Any of the keys of `CHAIN_METADATA_KEYS`, and all of them.
abbrev pub has_chain : Record → Bool
has_chain r = has_key "prev_hash" r || has_key "record_hash" r

abbrev pub is_chained : Record → Bool
is_chained r = has_key "prev_hash" r && has_key "record_hash" r

-- `_strip_chain_metadata`
unfoldable pub strip : Record → Record
strip r = without "organization_id" (without "record_hash" (without "prev_hash" r))

-- `_require_organization_id`, on a text.
abbrev pub require_organization_id : String → Stored (Unit {0})
require_organization_id s = refuse_if (is_blank s) bad_organization_id

module _ {Line : Type 0} (io : Lines Line) where
  -- `_record_hash`
  unfoldable pub record_hash : Record → String
  record_hash r = String.◌++◌ "sha256:" (io.sha256 (without "record_hash" r))

  -- The loop of `_read_all_records`.
  unfoldable pub read_lines : List Line → Stored (List Record)
  read_lines [] = ok []
  read_lines (l ∷ ls) = elim (io.blank l) [
    | true ↦ read_lines ls
    | false ↦ elim (io.loads l) [
      | none ↦ err not_json
      | some r ↦ read_lines ls >>= λ rs. ok (r ∷ rs)
    ]
  ]

  -- `_read_all_records`; iterating a file gives the text behind the last newline as a line, where there is one.
  unfoldable pub read_all_records : File Line → Stored (List Record)
  unfolding read_lines
  read_all_records file = read_lines (file.complete ++ file.rest ∷ [])

  -- `_verify_chain` from a state of its loop: `expected_prev`, and whether the chain has started.
  unfoldable pub verify_from : String → Bool → List Record → Stored (Unit {0})
  unfolding record_hash
  verify_from prev started [] = ok tt
  verify_from prev started (r ∷ rs) =
      if has_chain r
      then (require (is_text (lookup "prev_hash" r) prev) chain_broken
          >> require (is_text (lookup "record_hash" r) (record_hash r)) hash_mismatch
          >> verify_from (record_hash r) true rs)
      else (refuse_if started legacy_after_chain >> verify_from prev started rs)

  unfoldable pub verify_chain : List Record → Stored (Unit {0})
  unfolding verify_from
  verify_chain rs = verify_from genesis_hash false rs

  -- The loop of `_head_hash`; a verified record has a text or nothing at `record_hash`.
  unfoldable pub head_from : String → List Record → String
  head_from head [] = head
  head_from head (r ∷ rs) = elim (lookup "record_hash" r) [
    | some (jstr s) ↦ head_from (if nonempty s then s else head) rs
    | _ ↦ head_from head rs
  ]

  unfoldable pub head_hash : File Line → Stored String
  unfolding read_all_records verify_chain head_from
  head_hash file = read_all_records file >>= λ rs. verify_chain rs >> ok (head_from genesis_hash rs)

  -- The record that `_append_chained` writes.
  unfoldable pub chained : Record → String → Record
  unfolding record_hash
  chained payload prev =
      let r = insert "prev_hash" (jstr prev) payload in
      insert "record_hash" (jstr (record_hash r)) r

  -- A line and its newline, written behind the text of a file.
  abbrev pub write_line : File Line → Line → File Line
  write_line file l = record {
    complete = file.complete ++ io.glue file.rest l ∷ [];
    rest = io.empty;
  }

  -- `_append_chained`: the file afterwards.
  unfoldable pub append_chained : File Line → Record → Stored (File Line)
  unfolding head_hash chained
  append_chained file payload =
      head_hash file >>= λ prev. ok (write_line file (io.dumps (chained payload prev)))

  abbrev pub is_match : String → String → Record → Bool
  is_match trace_id organization_id r =
      is_text (lookup "trace_id" r) trace_id
      && is_text (lookup "organization_id" r) organization_id
      && is_chained r

  -- The loop of `_read_chained_by_id`; the second argument is `match`.
  unfoldable pub find_record : Bool → Option Record → String → String → List Record → Option Record
  find_record last_wins found trace_id organization_id [] = found
  find_record last_wins found trace_id organization_id (r ∷ rs) =
      let next = find_record last_wins (some r) trace_id organization_id rs in
      let skip = find_record last_wins found trace_id organization_id rs in
      if is_match trace_id organization_id r then (if last_wins then next else some r) else skip

  abbrev pub stripped : Option Record → Option Record
  stripped none = none
  stripped (some r) = some (strip r)

  unfoldable pub read_chained_by_id : File Line → String → String → Bool → Stored (Option Record)
  unfolding read_all_records verify_chain find_record strip
  read_chained_by_id file trace_id organization_id last_wins =
      require_organization_id organization_id
      >> (read_all_records file >>= λ rs.
          verify_chain rs >> ok (stripped (find_record last_wins none trace_id organization_id rs)))

-- The files at `storage_path`, `verdicts_path` and `universal_verdicts_path`.
pub record AuditPersistence (Line : Type 0) : Type 0 where
  pub traces : File Line
  pub verdicts : File Line
  pub universal_verdicts : File Line

-- `payload.get("trace_id")`, where it is a text that is not empty.
abbrev pub trace_id_of : Record → Stored String
trace_id_of payload = elim (lookup "trace_id" payload) [
  | some (jstr s) ↦ if nonempty s then ok s else err missing_trace_id
  | _ ↦ err missing_trace_id
]

module _ {Line : Type 0} (io : Lines Line) where
  -- The id that the call returns, or its exception, and the files afterwards.
  abbrev pub Written : Type 0
  Written = Stored (String × AuditPersistence Line)

  unfoldable pub write_trace : Record → String → AuditPersistence Line → Written
  unfolding append_chained nonempty
  write_trace payload organization_id p = trace_id_of payload >>= λ trace_id.
      require_organization_id organization_id
      >> (append_chained io p.traces (insert "organization_id" (jstr organization_id) payload)
          >>= λ file. ok (trace_id, record p { traces = file }))

  unfoldable pub read_trace_by_id : String → String → AuditPersistence Line → Stored (Option Record)
  unfolding read_chained_by_id
  read_trace_by_id trace_id organization_id p =
      read_chained_by_id io p.traces trace_id organization_id false

  -- The owner and the id over a payload.
  abbrev pub owned : String → String → Record → Record
  owned trace_id organization_id payload =
      insert "organization_id" (jstr organization_id) (insert "trace_id" (jstr trace_id) payload)

  unfoldable pub write_verdict : String → Record → String → AuditPersistence Line → Written
  unfolding append_chained nonempty
  write_verdict trace_id payload organization_id p =
      require (nonempty trace_id) missing_trace_id
      >> require_organization_id organization_id
      >> (append_chained io p.verdicts (owned trace_id organization_id payload) >>= λ file.
          ok (trace_id, record p { verdicts = file }))

  unfoldable pub read_verdict_by_id :
      String → String → AuditPersistence Line → Stored (Option Record)
  unfolding read_chained_by_id nonempty
  read_verdict_by_id trace_id organization_id p =
      if nonempty trace_id
      then read_chained_by_id io p.verdicts trace_id organization_id false
      else ok none

  unfoldable pub write_universal_verdict :
      String → Record → String → AuditPersistence Line → Written
  unfolding append_chained nonempty
  write_universal_verdict trace_id payload organization_id p =
      require (nonempty trace_id) missing_trace_id
      >> require_organization_id organization_id
      >> (append_chained io p.universal_verdicts (owned trace_id organization_id payload)
          >>= λ file. ok (trace_id, record p { universal_verdicts = file }))

  unfoldable pub read_universal_verdict_by_id :
      String → String → AuditPersistence Line → Stored (Option Record)
  unfolding read_chained_by_id
  read_universal_verdict_by_id trace_id organization_id p =
      read_chained_by_id io p.universal_verdicts trace_id organization_id true
