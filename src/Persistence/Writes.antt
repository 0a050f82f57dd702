-- ===== src/Persistence/Writes.antt =====
-- What `write_trace` and `write_universal_verdict` change for the readers.
use jamp.Prelude.{
  String, ◌≡◌, refl, Bool, true, false, ◌&&◌, ◌||◌, Option, none, some, List, [], ◌∷◌, ◌++◌, ok,
  err, ◌==◌, if◌then◌else◌, arith, inl, inr, Bool-cases, ap, ◌∙◌,
}
use jamp.Prelude.Dict.{
  lookup, insert, lookup-insert, lookup-insert_self, insert-DistinctKeys, DistinctKeys,
}
use jamp.Prelude.Text.{nonempty, is_blank}
use jamp.Canonical.{Json, jnull, jbool, jint, jfloat, jarr, jobj, jstr}
use jamp.Persistence.{
  Record, reread_option, Lines, File, Stored, missing_trace_id, is_chained, read_all_records,
  verify_chain, strip, stripped, is_match, find_record, read_chained_by_id, AuditPersistence,
  trace_id_of, write_trace, owned, write_universal_verdict,
}
use jamp.Persistence.Append.{Link, Appended, append_chained-Appended, chained-other}
use jamp.Persistence.Reads.{
  hidden, lookup-strip, or_else, when, find_first-append, find_last-append,
}

module _ {Line : Type 0} (io : Lines Line) where
  read_chained_by_id_lem :
      (file : File Line) (rs : List Record) (trace_id organization_id : String) (last_wins : Bool)
      → is_blank organization_id ≡ false
      → read_all_records io file ≡ ok rs
      → verify_chain io rs ≡ ok tt
      → read_chained_by_id io file trace_id organization_id last_wins
        ≡ ok (stripped io (find_record io last_wins none trace_id organization_id rs))
  unfolding read_chained_by_id
  read_chained_by_id_lem file rs trace_id organization_id last_wins full read verified =
      rw (full, read) (rw verified refl)

  -- The fields of a payload, without the hidden keys, as they are read again.
  abbrev pub Shows : Record → Record → Type 0
  Shows payload r =
      (k : String)
      → lookup k r ≡ (if hidden k then none else reread_option io.reread (lookup k payload))

  -- The record that a write added, as a reader gets it.
  record Added (owner writer : String) (payload new : Record) : Type 0 where
    matches : (t o : String) → is_match io t o new ≡ (writer == t && owner == o)
    shows : Shows payload (strip new)

  Link-Added :
      (owner writer prev : String) (payload new : Record)
      → Link io payload prev new
      → lookup "trace_id" payload ≡ some (jstr writer)
      → lookup "organization_id" payload ≡ some (jstr owner)
      → Added owner writer payload new
  Link-Added owner writer prev payload new l t o = record {
    matches = λ x. λ y.
        rw (text_at "trace_id" writer refl refl t, text_at "organization_id" owner refl refl o)
          (chained_too (writer == x) (owner == y));
    shows = λ k. lookup-strip k new ∙ shown k;
  }
    where
      text_at :
          (k s : String)
          → ("prev_hash" == k) ≡ false
          → ("record_hash" == k) ≡ false
          → lookup k payload ≡ some (jstr s)
          → lookup k new ≡ some (jstr s)
      text_at k s a b e =
          l.back.1 k
          ∙ ap (λ x. reread_option io.reread x) (chained-other io payload prev k a b ∙ e)
          ∙ ap some (io.reread-jstr s)

      chained_too : (a b : Bool) → ((a && b) && is_chained new) ≡ (a && b)
      chained_too a b = rw (l.linked, l.hashed) (ground arith)

      not_chain : (a b c : Bool) → (a || (b || c)) ≡ false → (a ≡ false) × (b ≡ false)
      not_chain false false c h = (refl, refl)
      not_chain false true c h = cc
      not_chain true b c h = cc

      shown :
          (k : String)
          → (if hidden k then none else lookup k new)
            ≡ (if hidden k then none else reread_option io.reread (lookup k payload))
      shown k = elim (Bool-cases (hidden k)) [
        | inl away ↦ rw away refl
        | inr kept ↦
            let (a, b) =
              not_chain ("prev_hash" == k) ("record_hash" == k) ("organization_id" == k) kept in
            rw kept (
              l.back.1 k
              ∙ ap (λ x. reread_option io.reread x) (chained-other io payload prev k a b))
      ]

  -- What a reader `t` of organization `o` gets before and after a write of `writer` for `owner`.
  pub record Change (last_wins : Bool) (file after : File Line) (owner writer : String)
      (payload : Record) (t o : String) : Type 0 where
    pub old : Option Record
    pub new : Record
    pub shows : Shows payload new
    pub before_read : read_chained_by_id io file t o last_wins ≡ ok old
    pub after_read :
        read_chained_by_id io after t o last_wins
        ≡ ok (
            let written = when (writer == t && owner == o) new in
            if last_wins then or_else written old else or_else old written)

  stripped-or_else :
      (a b : Option Record) → stripped io (or_else a b) ≡ or_else (stripped io a) (stripped io b)
  stripped-or_else none b = refl
  stripped-or_else (some r) b = refl

  stripped-when : (b : Bool) (r : Record) → stripped io (when b r) ≡ when b (strip r)
  stripped-when true r = refl
  stripped-when false r = refl

  Appended-Change :
      (last_wins : Bool) (file after : File Line) (owner writer : String) (payload : Record)
      → Appended io file after payload
      → lookup "trace_id" payload ≡ some (jstr writer)
      → lookup "organization_id" payload ≡ some (jstr owner)
      → (t o : String) → is_blank o ≡ false
      → Change last_wins file after owner writer payload t o
  Appended-Change last_wins file after owner writer payload a wt wo t o full =
      let added = Link-Added owner writer a.prev payload a.new a.link wt wo in
      record {
        old = stripped io (find_record io last_wins none t o a.records);
        new = strip a.new;
        shows = added.shows;
        before_read =
            read_chained_by_id_lem file a.records t o last_wins full a.before_read a.verified;
        after_read =
            read_chained_by_id_lem after (a.records ++ a.new ∷ []) t o last_wins full a.after_read
              a.still_verified
            ∙ ap ok (by_rule last_wins (added.matches t o));
      }
    where
      by_rule :
          (b : Bool)
          → is_match io t o a.new ≡ (writer == t && owner == o)
          → stripped io (find_record io b none t o (a.records ++ a.new ∷ [])) ≡ (
              let written = when (writer == t && owner == o) (strip a.new) in
              let old = stripped io (find_record io b none t o a.records) in
              if b then or_else written old else or_else old written)
      by_rule true m =
          ap (λ x. stripped io x) (find_last-append io t o none a.records a.new)
          ∙ stripped-or_else (when (is_match io t o a.new) a.new)
              (find_record io true none t o a.records)
          ∙ ap (λ x. or_else x (stripped io (find_record io true none t o a.records)))
              (stripped-when (is_match io t o a.new) a.new ∙ ap (λ b. when b (strip a.new)) m)
      by_rule false m =
          ap (λ x. stripped io x) (find_first-append io t o a.records a.new)
          ∙ stripped-or_else (find_record io false none t o a.records)
              (when (is_match io t o a.new) a.new)
          ∙ ap (λ x. or_else (stripped io (find_record io false none t o a.records)) x)
              (stripped-when (is_match io t o a.new) a.new ∙ ap (λ b. when b (strip a.new)) m)

  trace_id_of-lookup :
      (payload : Record) (s : String)
      → trace_id_of payload ≡ ok s
      → lookup "trace_id" payload ≡ some (jstr s)
  unfolding nonempty
  trace_id_of-lookup payload s h = text_there (lookup "trace_id" payload) h
    where
      by_length :
          (b : Bool) (t : String)
          → ◌≡◌ {A = Stored String} (if b then ok t else err missing_trace_id) (ok s)
          → t ≡ s
      by_length true t h = cc
      by_length false t h = cc

      text_there :
          (o : Option Json)
          → elim o as (λ _. Stored String) [
            | some (jstr t) ↦ if nonempty t then ok t else err missing_trace_id
            | _ ↦ err missing_trace_id
          ]
            ≡ ok s
          → o ≡ some (jstr s)
      text_there none h = cc
      text_there (some (jstr t)) h = ap (λ x. some (jstr x)) (by_length (nonempty t) t h)
      text_there (some jnull) h = cc
      text_there (some (jbool b)) h = cc
      text_there (some (jint n)) h = cc
      text_there (some (jfloat bits)) h = cc
      text_there (some (jarr es)) h = cc
      text_there (some (jobj ms)) h = cc

  -- Where the traces verify and have a newline at their end, a trace with an id, whose keys
  -- differ, for an owner that is not blank, is written. A reader whose organization is not blank then finds what it found before; only where it found nothing and asks for the id and the
  -- organization of the write it finds the new payload, without the keys of the chain and the owner, as it is
  -- read again. The traces have a newline at their end again, and the other files stay as they are.
  pub write_trace-Change :
      (payload : Record) (owner writer : String) (p : AuditPersistence Line) (rs : List Record)
      → DistinctKeys payload
      → trace_id_of payload ≡ ok writer
      → is_blank owner ≡ false
      → p.traces.rest ≡ io.empty
      → read_all_records io p.traces ≡ ok rs
      → verify_chain io rs ≡ ok tt
      → (t o : String) → is_blank o ≡ false
      → (after : AuditPersistence Line) × (write_trace io payload owner p ≡ ok (writer, after))
        × Change false p.traces after.traces owner writer
            (insert "organization_id" (jstr owner) payload)
            t
            o
        × (after.traces.rest ≡ io.empty)
        × (after.verdicts ≡ p.verdicts)
        × (after.universal_verdicts ≡ p.universal_verdicts)
  unfolding write_trace
  write_trace-Change payload owner writer p rs distinct named owned_by ended read verified t o
        full =
      let full_payload : Record = insert "organization_id" (jstr owner) payload in
      let (file, appended, a) =
        append_chained-Appended io p.traces full_payload rs
          (insert-DistinctKeys "organization_id" (jstr owner) payload distinct) ended read
          verified in
      (
        record p { traces = file },
        rw (named, owned_by) (rw appended refl),
        Appended-Change false p.traces file owner writer full_payload a
            (lookup-insert "organization_id" "trace_id" (jstr owner) payload
              ∙ trace_id_of-lookup payload writer named)
            (lookup-insert_self "organization_id" (jstr owner) payload) t o full,
        a.ended,
        refl,
        refl,
      )

  -- The same of a universal verdict, of which a reader finds the last that was written.
  pub write_universal_verdict-Change :
      (payload : Record) (owner writer : String) (p : AuditPersistence Line) (rs : List Record)
      → DistinctKeys payload
      → nonempty writer ≡ true
      → is_blank owner ≡ false
      → p.universal_verdicts.rest ≡ io.empty
      → read_all_records io p.universal_verdicts ≡ ok rs
      → verify_chain io rs ≡ ok tt
      → (t o : String) → is_blank o ≡ false
      → (after : AuditPersistence Line) × (write_universal_verdict io writer payload owner p
          ≡ ok (writer, after))
        × Change true p.universal_verdicts after.universal_verdicts owner writer
            (owned io writer owner payload)
            t
            o
        × (after.universal_verdicts.rest ≡ io.empty)
        × (after.traces ≡ p.traces)
        × (after.verdicts ≡ p.verdicts)
  unfolding write_universal_verdict
  write_universal_verdict-Change payload owner writer p rs distinct named owned_by ended read
        verified t o full =
      let with_id : Record = insert "trace_id" (jstr writer) payload in
      let full_payload : Record = insert "organization_id" (jstr owner) with_id in
      let (file, appended, a) =
        append_chained-Appended io p.universal_verdicts full_payload rs
          (insert-DistinctKeys "organization_id" (jstr owner) with_id
            (insert-DistinctKeys "trace_id" (jstr writer) payload distinct))
          ended read verified in
      (
        record p { universal_verdicts = file },
        rw (named, owned_by) (rw appended refl),
        Appended-Change true p.universal_verdicts file owner writer full_payload a
            (lookup-insert "organization_id" "trace_id" (jstr owner) with_id
              ∙ lookup-insert_self "trace_id" (jstr writer) payload)
            (lookup-insert_self "organization_id" (jstr owner) with_id) t o full,
        a.ended,
        refl,
        refl,
      )
