-- ===== src/Persistence/Tests.antt =====
-- `AuditPersistence` on small files, and the theorems about it there.
use Prim.Native.String
use jamp.Prelude.{
  String, ◌≡◌, refl, Bool, true, false, ◌&&◌, ◌++◌, Option, none, some, List, [], ◌∷◌, ok, err, ap,
  ◌∙◌,
}
use jamp.Prelude.Text.{nonempty, is_blank}
use jamp.Prelude.Dict.{lookup, insert, DistinctKeys}
use jamp.Canonical.{Json, jstr}
use jamp.Persistence.{
  Record, Reread, reread_option, Lines, AuditPersistence, record_hash, read_lines, File,
  trace_id_of, not_json, read_all_records, verify_from, verify_chain, head_from, head_hash, chained,
  append_chained, find_record, strip, read_chained_by_id, Written, write_trace, hash_mismatch,
}
use jamp.Persistence.Append.{Appended, append_chained-Appended}
use jamp.Persistence.Writes.{Change, write_trace-Change}
use jamp.Persistence.Glued.{append_chained-spoils}
use jamp.Persistence.Owner.{Owned, read_chained_by_id-Owned}

abbrev text_of : Option Json → String
text_of (some (jstr s)) = s
text_of other = "-"

-- A line is the list of the records that stand on it, and is read where it is one; the digest is the texts at two keys.
abbrev digest : Record → String
digest r = String.◌++◌ (text_of (lookup "prev_hash" r)) (text_of (lookup "claim" r))

same_text : (o : Option Json) → text_of (reread_option (λ v. v) o) ≡ text_of o
same_text none = refl
same_text (some v) = refl

reread_same : (o : Option Json) → o ≡ reread_option (λ v. v) o
reread_same none = refl
reread_same (some v) = refl

digest-Reread : (d r : Record) → DistinctKeys d → Reread (λ v. v) d r → digest r ≡ digest d
digest-Reread d r distinct (dr, same) = λ i.
    String.◌++◌ ((ap text_of (same "prev_hash") ∙ same_text (lookup "prev_hash" d)) i)
      ((ap text_of (same "claim") ∙ same_text (lookup "claim" d)) i)

abbrev one_of : List Record → Option Record
one_of (r ∷ []) = some r
one_of rs = none

abbrev is_none : List Record → Bool
is_none [] = true
is_none (r ∷ rs) = false

none-append : (l m : List Record) → is_none (l ++ m) ≡ (is_none l && is_none m)
none-append [] m = refl
none-append (r ∷ l) m = refl

one_of-append : (l : List Record) (r d : Record) → one_of l ≡ some r → one_of (l ++ d ∷ []) ≡ none
one_of-append [] r d h = cc
one_of-append (q ∷ []) r d h = refl
one_of-append (q ∷ x ∷ l) r d h = cc

abbrev io : Lines (List Record)
io = record {
  dumps = λ r. r ∷ [];
  loads = one_of;
  blank = is_none;
  empty = [];
  glue = λ l. λ m. l ++ m;
  sha256 = digest;
  reread = λ v. v;
  reread-jstr = λ s. refl;
  blank-dumps = λ r. refl;
  loads-dumps = λ d. λ h. (d, refl, (h, (λ k. reread_same (lookup k d))));
  blank-empty = refl;
  blank-glue = none-append;
  glue-empty = λ l. refl;
  loads-glue = one_of-append;
  sha256-Reread = digest-Reread;
}

abbrev payload : Record
payload = ("trace_id", jstr "t") ∷ ("claim", jstr "x") ∷ []

payload-DistinctKeys : DistinctKeys payload
payload-DistinctKeys = (refl, (refl, tt))

abbrev no_file : File (List Record)
no_file = record { complete = []; rest = [] }

abbrev no_files : AuditPersistence (List Record)
no_files = record { traces = no_file; verdicts = no_file; universal_verdicts = no_file }

abbrev files_of : Written io → AuditPersistence (List Record)
files_of (ok (id, p)) = p
files_of (err e) = no_files

abbrev one_trace : AuditPersistence (List Record)
one_trace = files_of (write_trace io payload "org" no_files)

abbrev two_traces : AuditPersistence (List Record)
two_traces = files_of (write_trace io payload "org" one_trace)

abbrev trace : Record
trace =
    chained io (insert "organization_id" (jstr "org") payload)
      "sha256:0000000000000000000000000000000000000000000000000000000000000000"

trace-read : read_all_records io one_trace.traces ≡ ok (trace ∷ [])
unfolding write_trace append_chained head_hash read_lines read_all_records verify_chain verify_from
    head_from chained record_hash nonempty is_blank
trace-read = refl

trace-verified : verify_chain io (trace ∷ []) ≡ ok tt
unfolding verify_chain verify_from chained record_hash
trace-verified = refl

one_trace-ended : one_trace.traces.rest ≡ []
unfolding write_trace append_chained head_hash read_lines read_all_records verify_chain verify_from
    head_from chained record_hash nonempty is_blank
one_trace-ended = refl

-- A changed line is noticed by the next call.
abbrev changed : File (List Record)
changed = record { complete = (insert "claim" (jstr "y") trace ∷ []) ∷ []; rest = [] }

changed-refused : append_chained io changed payload ≡ err hash_mismatch
unfolding append_chained head_hash read_lines read_all_records verify_chain verify_from head_from
    chained record_hash
changed-refused = refl

org-full : is_blank "org" ≡ false
unfolding is_blank
org-full = refl

payload-named : trace_id_of payload ≡ ok "t"
unfolding nonempty
payload-named = refl

write_trace-Change_example :
    (after : AuditPersistence (List Record)) × (write_trace io payload "org" one_trace
      ≡ ok ("t", after))
    × Change io false one_trace.traces after.traces "org" "t"
        (insert "organization_id" (jstr "org") payload)
        "t"
        "org"
    × (after.traces.rest ≡ [])
    × (after.verdicts ≡ one_trace.verdicts)
    × (after.universal_verdicts ≡ one_trace.universal_verdicts)
write_trace-Change_example =
    write_trace-Change io payload "org" "t" one_trace (trace ∷ []) payload-DistinctKeys
      payload-named org-full one_trace-ended trace-read trace-verified "t" "org" org-full

append_chained-Appended_example :
    (after : File (List Record)) × (append_chained io one_trace.traces payload ≡ ok after)
    × Appended io one_trace.traces after payload
append_chained-Appended_example =
    append_chained-Appended io one_trace.traces payload (trace ∷ []) payload-DistinctKeys
      one_trace-ended trace-read trace-verified

-- The same record with no newline behind it.
abbrev cut : File (List Record)
cut = record { complete = []; rest = trace ∷ [] }

cut-read : read_all_records io cut ≡ ok (trace ∷ [])
unfolding read_lines read_all_records
cut-read = refl

append_chained-spoils_example :
    (after : File (List Record)) × (append_chained io cut payload ≡ ok after)
    × (read_chained_by_id io after "t" "org" false ≡ err not_json)
    × (append_chained io after payload ≡ err not_json)
append_chained-spoils_example =
    append_chained-spoils io cut payload trace (trace ∷ []) refl refl cut-read trace-verified "t"
      "org" false org-full

abbrev shown : Record
shown = ("trace_id", jstr "t") ∷ ("claim", jstr "x") ∷ []

shown-read : read_chained_by_id io two_traces.traces "t" "org" false ≡ ok (some shown)
unfolding read_chained_by_id find_record strip write_trace append_chained head_hash read_lines
    read_all_records verify_chain verify_from head_from chained record_hash nonempty is_blank
shown-read = refl

read_chained_by_id-Owned_example : Owned io two_traces.traces "t" "org" shown
read_chained_by_id-Owned_example =
    read_chained_by_id-Owned io two_traces.traces "t" "org" false shown shown-read
