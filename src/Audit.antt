-- ===== src/Audit.antt =====
-- src/lib/audit.ts: a row of the audit log. Its insertion is outside every transaction, and the
-- database may reject it.
use mathlib.Core.List.{append_assoc, append-nil}
use backend_v.Prelude.{
  ◌≡◌, refl, sym, ap, ◌∙◌, true, some, List, [], ◌∷◌, ◌++◌, Bool-cases, inl, inr, if◌then◌else◌,
}
use backend_v.Errors.{Result, ok, err, db, log_rejected}
use backend_v.Store.Action.{Action, for_each}
use backend_v.Store.Schema.{RowId, Db, AuditAction, AuditLog}

abbrev pub log_row : AuditAction → RowId → RowId → RowId → AuditLog
log_row action actor_id shop_id entity_id = record {
  action = action;
  actor_id = some actor_id;
  shop_id = some shop_id;
  entity_id = some entity_id;
}

abbrev pub with_logs : List AuditLog → Db → Db
with_logs rows d = record d { audit_logs = d.audit_logs ++ rows }

-- `prisma.auditLog.create`
unfoldable pub insert_log : AuditLog → Action (Unit {0})
insert_log row d =
    if d.rejects_log d.audit_logs row
    then (err (db log_rejected), d)
    else (ok tt, with_logs (row ∷ []) d)

-- `recordAudit`
unfoldable pub record_audit : AuditAction → RowId → RowId → RowId → Action (Unit {0})
record_audit action actor_id shop_id entity_id =
    insert_log (log_row action actor_id shop_id entity_id)

-- A row that was written.
pub record_audit-eq-ok :
    (action : AuditAction) (a s e : RowId) (d d' : Db)
    → record_audit action a s e d ≡ (ok tt, d')
    → d' ≡ with_logs (log_row action a s e ∷ []) d
unfolding record_audit insert_log
record_audit-eq-ok action a s e d d' h =
    elim (Bool-cases (d.rejects_log d.audit_logs (log_row action a s e))) [
      | inl bad ↦ cc (ap (λ x. x.0) (rw bad at h))
      | inr good ↦ sym (ap (λ x. x.1) (rw good at h))
    ]

-- A row of the log, written or rejected, is none of the accounts' business.
pub insert_log-accounts : (row : AuditLog) (d : Db) → (insert_log row d).1.accounts ≡ d.accounts
unfolding insert_log
insert_log-accounts row d = elim (Bool-cases (d.rejects_log d.audit_logs row)) [
  | inl bad ↦ rw bad refl
  | inr good ↦ rw good refl
]

-- The end of writing rows one by one: all are written, or those before the first that is rejected.
pub data Written (rows : List AuditLog) (d : Db) (r : Result (Unit {0}) × Db) : Type 0 where
  whole : r ≡ (ok tt, with_logs rows d) → Written rows d r
  cut :
      (written rest : List AuditLog) (row : AuditLog)
      → rows ≡ written ++ row ∷ rest
      → d.rejects_log (d.audit_logs ++ written) row ≡ true
      → r ≡ (err (db log_rejected), with_logs written d)
      → Written rows d r

abbrev at_log : Db → List AuditLog → Db
at_log d log = record d { audit_logs = log }

pub for_each-Written : (rows : List AuditLog) (d : Db) → Written rows d (for_each rows insert_log d)
unfolding for_each insert_log
for_each-Written [] d = whole (ap (λ l. (ok tt, at_log d l)) (sym (append-nil d.audit_logs)))
for_each-Written (row ∷ rows) d = elim (Bool-cases (d.rejects_log d.audit_logs row)) [
  | inl bad ↦
      let nothing : d.audit_logs ++ [] ≡ d.audit_logs = append-nil d.audit_logs in
      cut [] rows row refl (ap (λ l. d.rejects_log l row) nothing ∙ bad)
        (rw bad (ap (λ l. (err (db log_rejected), at_log d l)) (sym nothing)))
  | inr good ↦ rw good (go (for_each-Written rows (with_logs (row ∷ []) d)))
]
  where
    go :
        {r : Result (Unit {0}) × Db}
        → Written rows (with_logs (row ∷ []) d) r
        → Written (row ∷ rows) d r
    go (whole e) =
        whole (e ∙ ap (λ l. (ok tt, at_log d l)) (append_assoc d.audit_logs (row ∷ []) rows))
    go (cut written rest x split bad e) =
        let joined = append_assoc d.audit_logs (row ∷ []) written in
        cut (row ∷ written) rest x (ap (λ l. row ∷ l) split)
          (ap (λ l. d.rejects_log l x) (sym joined) ∙ bad)
          (e ∙ ap (λ l. (err (db log_rejected), at_log d l)) joined)
