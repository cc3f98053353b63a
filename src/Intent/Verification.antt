-- ===== src/Intent/Verification.antt =====
-- `beginVerification` of execution-intent.service.ts, from every status.
use wizpay_core.Prelude.{
  ℕ, ◌≡◌, refl, sym, ap, ◌∙◌, inl, inr, String, true, false, ◌||◌, arith, Bool-cases, if◌then◌else◌,
  subst, update_where, find_sound,
}
use wizpay_core.Prelude.Outcome.{Handler, Outcome, done, return, ◌>>=◌, bind_of_done}
use wizpay_core.Intent.{
  IntentStatus, created, awaiting_wallet_signature, authorization_pending, submission_pending,
  submitted, verifying, failed_retryable, completed, failed_final, expired, cancelled, same_status,
  eq_of_same_status, includes, transitions, Intent, Table, Runtime,
}
use wizpay_core.Intent.Service.{
  has_id, get, transition, no_data, set_transition, is_at, verify_from_created, verify_from_pending,
  verify_from_submitted, begin_verification,
}
use wizpay_core.Intent.Row.{HasRow, get_row, moved, transition_lem}

-- The handler returned an intent that is the row now, in status `s`, with the hash that it had.
abbrev pub Leaves : Runtime → String → Intent → IntentStatus → Table × Outcome Intent → Type 0
Leaves env id i s r =
    (j : Intent) × (r.1 ≡ done j)
    × HasRow env id r.0 j
    × (j.status ≡ s)
    × (j.transaction_hash ≡ i.transaction_hash)

-- The status that each stage of `beginVerification` leaves.
abbrev after_created : IntentStatus → IntentStatus
after_created created = submission_pending
after_created s = s

abbrev after_pending : IntentStatus → IntentStatus
after_pending authorization_pending = submitted
after_pending submission_pending = submitted
after_pending s = s

abbrev after_submitted : IntentStatus → IntentStatus
after_submitted submitted = verifying
after_submitted failed_retryable = verifying
after_submitted s = s

-- Where verification takes an intent: to VERIFYING from everywhere but the terminal statuses and an
-- open wallet signature.
abbrev pub verification_of : IntentStatus → IntentStatus
verification_of completed = completed
verification_of failed_final = failed_final
verification_of expired = expired
verification_of cancelled = cancelled
verification_of awaiting_wallet_signature = awaiting_wallet_signature
verification_of _ = verifying

module _ (env : Runtime) (id : String) (now : ℕ) where
  stays :
      (t : Table) (i : Intent) (s : IntentStatus)
      → HasRow env id t i
      → i.status ≡ s
      → Leaves env id i s (t, done i)
  stays t i s row e = (i, refl, row, e, refl)

  moves :
      (t : Table) (i : Intent) (expected next : IntentStatus)
      → HasRow env id t i
      → includes (transitions expected) next ≡ true
      → i.status ≡ expected
      → Leaves env id i next (transition env id expected next no_data now t)
  moves t i expected next row on here =
      let j : Intent = set_transition next no_data now i in
      let t' : Table = update_where (is_at id expected) (set_transition next no_data now) t in
      let at : is_at id expected i ≡ true = ground (arith, find_sound (has_id id) t row.there) in
      let e : transition env id expected next no_data now t ≡ (t', done j) =
        ground (arith, transition_lem env id t i expected next no_data now row) in
      (
        j,
        ap (λ r. r.1) e,
        subst (λ u. HasRow env id u j) (sym (ap (λ r. r.0) e))
            (moved env id t i row expected next no_data now at),
        refl,
        refl,
      )

  restated :
      (i : Intent) (s s' : IntentStatus) (r : Table × Outcome Intent)
      → s ≡ s'
      → Leaves env id i s r
      → Leaves env id i s' r
  restated i s s' r e h = subst (λ u. Leaves env id i u r) e h

  created_stage :
      (t : Table) (i : Intent)
      → HasRow env id t i
      → Leaves env id i (after_created i.status) (verify_from_created env id now i t)
  unfolding verify_from_created
  created_stage t i row = elim (Bool-cases (same_status i.status created)) [
    | inl e ↦
        let here : i.status ≡ created = eq_of_same_status i.status created e in
        rw e (
          restated i submission_pending (after_created i.status)
            (transition env id created submission_pending no_data now t)
            (sym (ap after_created here)) (moves t i created submission_pending row refl here))
    | inr e ↦ rw e (stays t i (after_created i.status) row (ground arith))
  ]

  pending_stage :
      (t : Table) (i : Intent)
      → HasRow env id t i
      → Leaves env id i (after_pending i.status) (verify_from_pending env id now i t)
  unfolding verify_from_pending
  pending_stage t i row = elim (Bool-cases (same_status i.status authorization_pending)) [
    | inl e ↦
        let here : i.status ≡ authorization_pending =
          eq_of_same_status i.status authorization_pending e in
        rw e (
          restated i submitted (after_pending i.status)
            (transition env id authorization_pending submitted no_data now t)
            (sym (ap after_pending here)) (moves t i authorization_pending submitted row refl here))
    | inr e ↦ rw e (elim (Bool-cases (same_status i.status submission_pending)) [
      | inl e' ↦
          let here : i.status ≡ submission_pending =
            eq_of_same_status i.status submission_pending e' in
          rw e' (
            restated i submitted (after_pending i.status)
              (transition env id submission_pending submitted no_data now t)
              (sym (ap after_pending here)) (moves t i submission_pending submitted row refl here))
      | inr e' ↦ rw e' (stays t i (after_pending i.status) row (ground arith))
    ])
  ]

  submitted_stage :
      (t : Table) (i : Intent)
      → HasRow env id t i
      → Leaves env id i (after_submitted i.status) (verify_from_submitted env id now i t)
  unfolding verify_from_submitted
  submitted_stage t i row = elim (Bool-cases (same_status i.status submitted)) [
    | inl e ↦
        let here : i.status ≡ submitted = eq_of_same_status i.status submitted e in
        rw e (
          restated i verifying (after_submitted i.status)
            (transition env id submitted verifying no_data now t) (sym (ap after_submitted here))
            (moves t i submitted verifying row refl here))
    | inr e ↦ rw e (elim (Bool-cases (same_status i.status failed_retryable)) [
      | inl e' ↦
          let here : i.status ≡ failed_retryable = eq_of_same_status i.status failed_retryable e' in
          rw e' (
            restated i verifying (after_submitted i.status)
              (transition env id failed_retryable verifying no_data now t)
              (sym (ap after_submitted here)) (moves t i failed_retryable verifying row refl here))
      | inr e' ↦ rw e' (stays t i (after_submitted i.status) row (ground arith))
    ])
  ]

  -- One stage after another, each on the intent that the one before returned.
  and_then :
      (m : Handler Table Intent) (f : Intent → Handler Table Intent) (t : Table) (i : Intent)
      (s : IntentStatus) (next : IntentStatus → IntentStatus)
      → Leaves env id i s (m t)
      → ((u : Table) (j : Intent) → HasRow env id u j → Leaves env id j (next j.status) (f j u))
      → Leaves env id i (next s) ((m >>= f) t)
  and_then m f t i s next (j, returned, row, status, hash) step =
      let (k, returned', row', status', hash') = step (m t).0 j row in
      let whole : (m >>= f) t ≡ f j (m t).0 =
        bind_of_done m f t (ap (λ (o : Outcome Intent). ((m t).0, o)) returned) in
      (
        k,
        ap (λ r. r.1) whole ∙ returned',
        subst (λ (r : Table × Outcome Intent). HasRow env id r.0 k) (sym whole) row',
        status' ∙ ap next status,
        hash' ∙ hash,
      )

  stages_lead :
      (s : IntentStatus)
      → (same_status s completed || same_status s verifying) ≡ false
      → after_submitted (after_pending (after_created s)) ≡ verification_of s
  stages_lead s h = ground arith

-- `beginVerification` never throws on an intent that is there once and on the runtime's network:
-- it returns the intent, and leaves it under verification from every status but the terminal ones
-- and an open wallet signature, which it leaves as they are. The transaction hash stays what it
-- was, also where there is none.
pub begin_verification_lem :
    (env : Runtime) (id : String) (now : ℕ) (t : Table) (i : Intent)
    → HasRow env id t i
    → Leaves env id i (verification_of i.status) (begin_verification env id now t)
unfolding begin_verification
begin_verification_lem env id now t i row =
    subst (Leaves env id i (verification_of i.status))
      (sym (
        bind_of_done (get env id)
          (λ (k : Intent).
            if same_status k.status completed || same_status k.status verifying
            then return k
            else verify_from_created env id now k
              >>= verify_from_pending env id now
              >>= verify_from_submitted env id now)
          t (get_row env id t i row)))
      (elim (Bool-cases (same_status i.status completed || same_status i.status verifying)) [
        | inl over ↦ rw over (stays env id now t i (verification_of i.status) row (ground arith))
        | inr open_ ↦ rw open_ (
            restated env id now i (after_submitted (after_pending (after_created i.status)))
              (verification_of i.status)
              ((verify_from_created env id now i
                  >>= verify_from_pending env id now
                  >>= verify_from_submitted env id now)
                t)
              (stages_lead env id now i.status open_)
              (and_then env id now
                (verify_from_created env id now i >>= verify_from_pending env id now)
                (verify_from_submitted env id now) t i (after_pending (after_created i.status))
                after_submitted
                (and_then env id now (verify_from_created env id now i)
                  (verify_from_pending env id now) t i (after_created i.status) after_pending
                  (created_stage env id now t i row) (λ u j. pending_stage env id now u j))
                (λ u j. submitted_stage env id now u j)))
      ])
