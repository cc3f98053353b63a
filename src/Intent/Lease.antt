-- ===== src/Intent/Lease.antt =====
-- The lease of execution-intent.service.ts: one submitter at a time.
use wizpay_core.Prelude.{
  ℕ, ◌+◌, ◌<◌, ◌≡◌, refl, sym, ap, ◌∙◌, inl, inr, ◌≢◌, String, Bool, true, false, ◌||◌, some, arith,
  Bool-cases, if◌then◌else◌, update_where, count, from_Bool, ltb, subst, ◌↔◌,
}
use wizpay_core.Prelude.Text.{same_iff}
use wizpay_core.Prelude.Outcome.{Outcome, done, threw}
use wizpay_core.Chain.{trim, is_empty}
use wizpay_core.Intent.{is_terminal, Intent, Table, Runtime}
use wizpay_core.Intent.Service.{
  update_many, has_id, acquire_lease, refuse_lease, assert_lease, may_lease, set_lease,
  active_lease, terminal,
}
use wizpay_core.Intent.Row.{HasRow, get_row, write_count, write_row, write_nothing}

-- `!leaseOwner.trim() || ttlMs < 1_000 || ttlMs > 15 * 60_000`
abbrev pub is_bad_request : String → ℕ → Bool
is_bad_request lease_owner ttl_ms =
    is_empty (trim lease_owner) || ltb ttl_ms 1000 || ltb 900000 ttl_ms

lease_about : (id : String) (now : ℕ) (a : Intent) → may_lease id now a ≡ true → has_id id a ≡ true
lease_about id now a h = ground arith

done_inj : {a b : Intent} → Outcome.done a ≡ done b → a ≡ b
done_inj e = cc

module _ (env : Runtime) (id : String) (t : Table) (i : Intent) (row : HasRow env id t i)
    (lease_owner : String) (ttl_ms now : ℕ) where
  abbrev leased : Intent
  leased = set_lease lease_owner (now + ttl_ms) i

  abbrev leased_table : Table
  leased_table = update_where (may_lease id now) (set_lease lease_owner (now + ttl_ms)) t

  pub leased-HasRow : may_lease id now i ≡ true → HasRow env id leased_table leased
  leased-HasRow =
      write_row env id t i row (may_lease id now) (set_lease lease_owner (now + ttl_ms))
        (lease_about id now) (λ a. refl) (λ a. refl)

  lease_count : count (may_lease id now) t ≡ from_Bool (may_lease id now i)
  lease_count =
      write_count env id t i row (may_lease id now) (set_lease lease_owner (now + ttl_ms))
        (lease_about id now) (λ a. refl) (λ a. refl)

  unleased : may_lease id now i ≡ false → leased_table ≡ t
  unleased =
      write_nothing env id t i row (may_lease id now) (set_lease lease_owner (now + ttl_ms))
        (lease_about id now) (λ a. refl) (λ a. refl)

  -- `acquireLease` as an equation.
  pub acquire_lease_lem : acquire_lease env id lease_owner ttl_ms now t ≡ (
      if is_bad_request lease_owner ttl_ms
      then (t, threw active_lease)
      else if may_lease id now i
      then (leased_table, done leased)
      else (t, threw (if is_terminal i.status then terminal else active_lease)))
  unfolding acquire_lease refuse_lease update_many
  acquire_lease_lem = elim (Bool-cases (is_bad_request lease_owner ttl_ms)) [
    | inl bad ↦ ground arith
    | inr good ↦ elim (Bool-cases (may_lease id now i)) [
      | inl free ↦
          ground (arith, lease_count, get_row env id leased_table leased (leased-HasRow free))
      | inr busy ↦ ground (arith, lease_count, unleased busy, get_row env id t i row)
    ]
  ]

  -- A call that returns has written the lease.
  granted :
      {j : Intent}
      → (acquire_lease env id lease_owner ttl_ms now t).1 ≡ done j
      → (may_lease id now i ≡ true)
        × (acquire_lease env id lease_owner ttl_ms now t ≡ (leased_table, done leased))
        × (j ≡ leased)
        × (is_bad_request lease_owner ttl_ms ≡ false)
  granted {j} got = elim (Bool-cases (is_bad_request lease_owner ttl_ms)) [
    | inl bad ↦ ground (arith, acquire_lease_lem)
    | inr good ↦ elim (Bool-cases (may_lease id now i)) [
      | inl free ↦
          let e : acquire_lease env id lease_owner ttl_ms now t ≡ (leased_table, done leased) =
            ground (arith, acquire_lease_lem) in
          (free, e, done_inj (sym got ∙ ap (λ r. r.1) e), good)
      | inr busy ↦ ground (arith, acquire_lease_lem)
    ]
  ]

-- While a lease runs no other request gets one: after an `acquireLease` that returned, on an
-- intent that is there once and on the runtime's network, a second one before the first expires,
-- by whomever and with whatever duration, throws and writes nothing.
pub lease_exclusive :
    (env : Runtime) (id : String) (t : Table) (i j : Intent) (owner other : String)
    (ttl_ms ttl_ms' now now' : ℕ)
    → HasRow env id t i
    → (acquire_lease env id owner ttl_ms now t).1 ≡ done j
    → now' < now + ttl_ms
    → acquire_lease env id other ttl_ms' now' (acquire_lease env id owner ttl_ms now t).0
      ≡ ((acquire_lease env id owner ttl_ms now t).0, threw active_lease)
lease_exclusive env id t i j owner other ttl_ms ttl_ms' now now' row got early =
    let (free, e, _, _) = granted env id t i row owner ttl_ms now got in
    subst
      (λ (r : Table × Outcome Intent).
        acquire_lease env id other ttl_ms' now' r.0 ≡ (r.0, threw active_lease))
      (sym e)
      (ground (
        arith,
        acquire_lease_lem env id (leased_table env id t i row owner ttl_ms now)
            (leased env id t i row owner ttl_ms now)
            (leased-HasRow env id t i row owner ttl_ms now free) other ttl_ms' now',
      ))

blank : Unit {0}
unfolding trim
blank = tt

not_blank : (owner : String) (ttl_ms : ℕ) → is_bad_request owner ttl_ms ≡ false → owner ≢ ""
unfolding blank
not_blank owner ttl_ms good e =
    let no_text : is_bad_request "" ttl_ms ≡ false =
      subst (λ o. is_bad_request o ttl_ms ≡ false) e good in
    cc

passes :
    (env : Runtime) (id : String) (t : Table) (i : Intent)
    → HasRow env id t i
    → (owner other : String) (expires now : ℕ) → i.lease_owner ≡ some owner
    → i.lease_expires_at ≡ some expires
    → now < expires
    → owner ≢ ""
    → ((assert_lease env id other now t).1 ≡ done i) ↔ (other ≡ owner)
unfolding assert_lease
passes env id t i row owner other expires now held until early named =
    ground (arith, get_row env id t i row, same_iff other "", same_iff owner other)

-- While a lease runs its holder passes `assertLease`, and nobody else does: after an
-- `acquireLease` that returned, on an intent that is there once and on the runtime's network, and
-- before it expires.
pub assert_lease_iff :
    (env : Runtime) (id : String) (t : Table) (i j : Intent) (owner other : String)
    (ttl_ms now now' : ℕ)
    → HasRow env id t i
    → (acquire_lease env id owner ttl_ms now t).1 ≡ done j
    → now' < now + ttl_ms
    → ((assert_lease env id other now' (acquire_lease env id owner ttl_ms now t).0).1 ≡ done j)
      ↔ (other ≡ owner)
assert_lease_iff env id t i j owner other ttl_ms now now' row got early =
    let (free, e, is_leased, good) = granted env id t i row owner ttl_ms now got in
    let j' : Intent = leased env id t i row owner ttl_ms now in
    subst
      (λ (r : Table × Outcome Intent).
        ((assert_lease env id other now' r.0).1 ≡ done j) ↔ (other ≡ owner))
      (sym e)
      (subst
        (λ (k : Intent).
          ((assert_lease env id other now' (leased_table env id t i row owner ttl_ms now)).1
            ≡ done k)
          ↔ (other ≡ owner))
        (sym is_leased)
        (passes env id (leased_table env id t i row owner ttl_ms now) j'
          (leased-HasRow env id t i row owner ttl_ms now free) owner other (now + ttl_ms) now' refl
          refl early (not_blank owner ttl_ms good)))
