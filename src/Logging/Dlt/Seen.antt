-- ===== src/Logging/Dlt/Seen.antt =====
-- What a sink asks of the DLT library: the trace of its calls. What the library does with them is
-- not modelled.
use minimal_autosar_adaptive.Prelude.{
  if◌then◌else◌, nat_eq, ◌==◌, zero, suc, ap, sym, ◌∙◌, ℕ, ◌<◌, ◌≡◌, refl, subst, list_eq,
  list_beq_iff, Bytes, List, [], ◌∷◌, ◌++◌, map, Option, none, some, arith, length, Option-cases,
  inl, inr,
}
use minimal_autosar_adaptive.Prelude.Table.{
  Table, lookup, insert, lookup-insert, lookup-insert_self,
}
use minimal_autosar_adaptive.Logging.Logger.{
  LogLevel, off, fatal, error, warn, info, debug, verbose, level_code, LogRecord,
}
use minimal_autosar_adaptive.Logging.Dlt.{
  DltLevel, dlt_fatal, dlt_error, dlt_warn, dlt_info, dlt_debug, dlt_verbose, to_dlt_level, DltCall,
  register_app, register_context, dlt_log, DltSink, new_sink, c_string, ensure_app_registered,
  ensure_ctx_registered, dlt_log_in, write, write_all,
}

-- The calls, read from the front: which name each context has been registered under.
abbrev pub Contexts : Type 0
Contexts = Table ℕ Bytes

-- The number of a level in DLT, from DLT_LOG_FATAL on.
pub dlt_number : DltLevel → ℕ
dlt_number dlt_fatal = 1
dlt_number dlt_error = 2
dlt_number dlt_warn = 3
dlt_number dlt_info = 4
dlt_number dlt_debug = 5
dlt_number dlt_verbose = 6

-- A call of DLT_LOG: the name that its context was registered under before, `none` if it was not,
-- the number of the level, and the text.
abbrev pub Seen : Type 0
Seen = Option Bytes × ℕ × Bytes

pub registered : List DltCall → Contexts → Contexts
registered [] d = d
registered (register_app id desc ∷ calls) d = registered calls d
registered (register_context ctx id desc ∷ calls) d = registered calls (insert ctx id d)
registered (dlt_log ctx level text ∷ calls) d = registered calls d

-- The calls of DLT_LOG, in order.
pub seen : List DltCall → Contexts → List Seen
seen [] d = []
seen (register_app id desc ∷ calls) d = seen calls d
seen (register_context ctx id desc ∷ calls) d = seen calls (insert ctx id d)
seen (dlt_log ctx level text ∷ calls) d = (lookup ctx d, dlt_number level, text) ∷ seen calls d

seen-append :
    (cs ds : List DltCall) (d : Contexts)
    → seen (cs ++ ds) d ≡ seen cs d ++ seen ds (registered cs d)
unfolding seen registered
seen-append [] ds d = refl
seen-append (register_app id desc ∷ cs) ds d = seen-append cs ds d
seen-append (register_context ctx id desc ∷ cs) ds d = seen-append cs ds (insert ctx id d)
seen-append (dlt_log ctx level text ∷ cs) ds d =
    ap (λ l. (lookup ctx d, dlt_number level, text) ∷ l) (seen-append cs ds d)

registered-append :
    (cs ds : List DltCall) (d : Contexts)
    → registered (cs ++ ds) d ≡ registered ds (registered cs d)
unfolding registered
registered-append [] ds d = refl
registered-append (register_app id desc ∷ cs) ds d = registered-append cs ds d
registered-append (register_context ctx id desc ∷ cs) ds d =
    registered-append cs ds (insert ctx id d)
registered-append (dlt_log ctx level text ∷ cs) ds d = registered-append cs ds d

-- The sink's table and the library's agree.
record Agrees (s : DltSink) (d : Contexts) : Type 0 where
  named :
      (id : Bytes) (ctx : ℕ) → lookup id s.ctx_by_id ≡ some ctx → lookup ctx d ≡ some (c_string id)
  below : (id : Bytes) (ctx : ℕ) → lookup id s.ctx_by_id ≡ some ctx → ctx < length s.ctx_by_id

-- The number that a level should go out with: its own, or that of an information for `off`.
pub number_of : LogLevel → ℕ
number_of lvl = if level_code lvl == 0 then level_code info else level_code lvl

to_dlt_level-number_of : (lvl : LogLevel) → dlt_number (to_dlt_level lvl) ≡ number_of lvl
unfolding dlt_number to_dlt_level number_of level_code
to_dlt_level-number_of off = refl
to_dlt_level-number_of fatal = refl
to_dlt_level-number_of error = refl
to_dlt_level-number_of warn = refl
to_dlt_level-number_of info = refl
to_dlt_level-number_of debug = refl
to_dlt_level-number_of verbose = refl

-- What C reads of a text: the bytes before the first that is 0.
pub up_to_nul : Bytes → Bytes
up_to_nul [] = []
up_to_nul (zero ∷ s) = []
up_to_nul (suc b ∷ s) = suc b ∷ up_to_nul s

c_string-up_to_nul : (s : Bytes) → c_string s ≡ up_to_nul s
unfolding c_string up_to_nul
c_string-up_to_nul [] = refl
c_string-up_to_nul (zero ∷ s) = refl
c_string-up_to_nul (suc b ∷ s) = ground (arith, c_string-up_to_nul s)

abbrev pub message_of : LogRecord → Seen
message_of r = (some (up_to_nul r.ctx_id), number_of r.level, up_to_nul r.message)

-- The same, as the sink computes it.
message_as : LogRecord → Seen
message_as r = (some (c_string r.ctx_id), dlt_number (to_dlt_level r.level), c_string r.message)

message_as-message_of : (r : LogRecord) → message_as r ≡ message_of r
unfolding message_as
message_as-message_of r =
    rw (c_string-up_to_nul r.ctx_id, c_string-up_to_nul r.message, to_dlt_level-number_of r.level)
      refl

length-insert :
    (k : Bytes) (v : ℕ) (m : Table Bytes ℕ)
    → lookup k m ≡ none
    → length (insert k v m) ≡ suc (length m)
unfolding lookup insert
length-insert k v [] h = refl
length-insert k v ((j, w) ∷ m) h = ground (arith, length-insert k v m)

register-Agrees :
    (id : Bytes) (s : DltSink) (d : Contexts)
    → lookup id s.ctx_by_id ≡ none
    → Agrees s d
    → let ctx = length s.ctx_by_id in
      Agrees (record s { ctx_by_id = insert id ctx s.ctx_by_id }) (insert ctx (c_string id) d)
register-Agrees id s d new a = record {
  named = λ j ctx h. ground (
    arith,
    a.named j ctx,
    a.below j ctx,
    lookup-insert id j (length s.ctx_by_id) s.ctx_by_id,
    lookup-insert (length s.ctx_by_id) ctx (c_string id) d,
    list_beq_iff id j,
    nat_eq.beq_iff (length s.ctx_by_id) ctx,
  );
  below = λ j ctx h. ground (
    arith,
    a.below j ctx,
    lookup-insert id j (length s.ctx_by_id) s.ctx_by_id,
    length-insert id (length s.ctx_by_id) s.ctx_by_id new,
  );
}

-- What a write comes to.
record Writes (r : LogRecord) (d : Contexts) (w : DltSink × List DltCall) : Type 0 where
  agrees : Agrees w.0 (registered w.1 d)
  one : seen w.1 d ≡ message_as r ∷ []

-- A write once the application is registered.
in_context : (r : LogRecord) → DltSink → DltSink × List DltCall
in_context r s =
    let (t, calls) = ensure_ctx_registered r.ctx_id r.ctx_id s in (t, calls ++ dlt_log_in r t)

in_context_known :
    (r : LogRecord) (s : DltSink) (ctx : ℕ)
    → lookup r.ctx_id s.ctx_by_id ≡ some ctx
    → in_context r s ≡ (s, dlt_log ctx (to_dlt_level r.level) (c_string r.message) ∷ [])
unfolding in_context ensure_ctx_registered dlt_log_in
in_context_known r s ctx e = ground arith

abbrev with_context : Bytes → DltSink → DltSink
with_context id s = record s { ctx_by_id = insert id (length s.ctx_by_id) s.ctx_by_id }

in_context_new :
    (r : LogRecord) (s : DltSink)
    → lookup r.ctx_id s.ctx_by_id ≡ none
    → let ctx = length s.ctx_by_id in
      in_context r s ≡ (
        with_context r.ctx_id s,
        register_context ctx (c_string r.ctx_id) (c_string r.ctx_id)
            ∷ dlt_log ctx (to_dlt_level r.level) (c_string r.message)
            ∷ [],
      )
unfolding in_context ensure_ctx_registered dlt_log_in
in_context_new r s e = ground (arith, lookup-insert_self r.ctx_id (length s.ctx_by_id) s.ctx_by_id)

in_context-Writes :
    (r : LogRecord) (s : DltSink) (d : Contexts) → Agrees s d → Writes r d (in_context r s)
unfolding seen registered message_as
in_context-Writes r s d a = elim (Option-cases (lookup r.ctx_id s.ctx_by_id)) [
  | inr (ctx, e) ↦
      subst (Writes r d) (sym (in_context_known r s ctx e))
        (record { agrees = a; one = rw (a.named r.ctx_id ctx e) refl })
  | inl e ↦
      let ctx = length s.ctx_by_id in
      subst (Writes r d) (sym (in_context_new r s e)) (record {
        agrees = register-Agrees r.ctx_id s d e a;
        one = rw (lookup-insert_self ctx (c_string r.ctx_id) d) refl;
      })
]

-- The registration of the application touches no context.
record IsQuiet (s : DltSink) (d : Contexts) (w : DltSink × List DltCall) : Type 0 where
  same : w.0.ctx_by_id ≡ s.ctx_by_id
  kept : registered w.1 d ≡ d
  silent : seen w.1 d ≡ []

ensure_app_registered-IsQuiet :
    (app : Bytes) (s : DltSink) (d : Contexts) → IsQuiet s d (ensure_app_registered app s)
unfolding ensure_app_registered seen registered
ensure_app_registered-IsQuiet app s d = ground arith

Agrees-same : (s t : DltSink) (d : Contexts) → t.ctx_by_id ≡ s.ctx_by_id → Agrees s d → Agrees t d
Agrees-same s t d e a = record {
  named = λ id ctx h. a.named id ctx (ap (lookup id) (sym e) ∙ h);
  below = λ id ctx h. omega (arith, a.below id ctx (ap (lookup id) (sym e) ∙ h), ap (length {0}) e);
}

after_quiet :
    (r : LogRecord) (d : Contexts) (calls : List DltCall) (w : DltSink × List DltCall)
    → registered calls d ≡ d
    → seen calls d ≡ []
    → Writes r d w
    → Writes r d (w.0, calls ++ w.1)
after_quiet r d calls w kept silent h = record {
  agrees = rw (registered-append, kept) h.agrees;
  one = rw (seen-append, kept, silent) h.one;
}

write-Writes : (r : LogRecord) (s : DltSink) (d : Contexts) → Agrees s d → Writes r d (write r s)
unfolding write in_context
write-Writes r s d a =
    let (s', calls) = ensure_app_registered r.app_id s in
    let q = ensure_app_registered-IsQuiet r.app_id s d in
    after_quiet r d calls (in_context r s') q.kept q.silent
      (in_context-Writes r s' d (Agrees-same s s' d q.same a))

write_all-seen :
    (rs : List LogRecord) (s : DltSink) (d : Contexts)
    → Agrees s d
    → seen (write_all rs s).1 d ≡ map message_of rs
unfolding write_all
write_all-seen [] s d a = unfold seen in refl
write_all-seen (r ∷ rs) s d a =
    let (t, calls) = write r s in
    let w = write-Writes r s d a in
    seen-append calls (write_all rs t).1 d
    ∙ rw (w.one, write_all-seen rs t (registered calls d) w.agrees, message_as-message_of r) refl

-- For any records that a new sink is given, it calls DLT_LOG once for each, in order, with a context
-- that it has registered before under the record's context id, at the level of the same number, or
-- as an information where the level is `off`, and with the record's text; ids and texts as C reads
-- them.
pub write_all-new_sink :
    (rs : List LogRecord) (app_description : Bytes)
    → seen (write_all rs (new_sink app_description)).1 [] ≡ map message_of rs
unfolding new_sink lookup
write_all-new_sink rs app_description =
    write_all-seen rs (new_sink app_description) []
      (record { named = λ id ctx h. cc; below = λ id ctx h. absurd (cc) })
