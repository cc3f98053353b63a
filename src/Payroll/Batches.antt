-- ===== src/Payroll/Batches.antt =====
-- What apps/backend/src/agents/payroll/payroll-batch.service.ts makes of a list of recipients.
use wizpay_core.Prelude.{
  ℕ, zero, suc, ◌+◌, ◌≤◌, ◌<◌, ◌≡◌, refl, sym, inl, inr, String, List, [], ◌∷◌, ◌++◌, length, drop,
  arith, sum_by, All, All-append, All-take, All-drop, length-take-le, Bool-cases,
}
use wizpay_core.Prelude.Text.{same, same_iff}
use wizpay_core.Payroll.{
  Recipient, Batch, max_batch_size, Groups, add_to_group, group_from, chunks, units, push_batches,
  cut_groups, split_into_batches,
}

abbrev PaidIn : String → Recipient → Type 0
PaidIn token r = r.target_token ≡ token

-- A list of recipients that can be paid at once.
pub record IsPayable (rs : List Recipient) : Type 0 where
  pub nonempty : 0 < length rs
  pub small : length rs ≤ max_batch_size
  pub token : String
  pub one_token : All (PaidIn token) rs

pub record IsBatch (b : Batch) : Type 0 where
  pub payable : IsPayable b.recipients
  pub total : b.total_amount ≡ sum_by units 0 b.recipients

-- The batches are numbered from `n` on, in order.
abbrev pub IsNumbered : ℕ → List Batch → Type 0
IsNumbered n [] = Unit {0}
IsNumbered n (b ∷ bs) = (b.index ≡ n) × IsNumbered (suc n) bs

abbrev IsGroup : String × List Recipient → Type 0
IsGroup g = All (PaidIn g.0) g.1

add_to_group-IsGroup :
    (r : Recipient) (groups : Groups) → All IsGroup groups → All IsGroup (add_to_group r groups)
unfolding add_to_group
add_to_group-IsGroup r [] h = ((refl, tt), tt)
add_to_group-IsGroup r ((token, rs) ∷ groups) h = elim (Bool-cases (same token r.target_token)) [
  | inl here ↦ rw here (
    All-append (PaidIn token) rs (r ∷ []) h.0 (sym ((same_iff token r.target_token).0 here), tt),
    h.1,
  )
  | inr there ↦ rw there (h.0, add_to_group-IsGroup r groups h.1)
]

group_from-IsGroup :
    (groups : Groups) (rs : List Recipient)
    → All IsGroup groups
    → All IsGroup (group_from groups rs)
unfolding group_from
group_from-IsGroup groups [] h = h
group_from-IsGroup groups (r ∷ rs) h =
    group_from-IsGroup (add_to_group r groups) rs (add_to_group-IsGroup r groups h)

chunks-IsPayable :
    (token : String) (fuel : ℕ) (rs : List Recipient)
    → All (PaidIn token) rs
    → All IsPayable (chunks fuel rs)
unfolding chunks
chunks-IsPayable token zero rs h = tt
chunks-IsPayable token (suc fuel) [] h = tt
chunks-IsPayable token (suc fuel) (r ∷ rs) h = (
  record {
    nonempty = omega arith;
    small = length-take-le max_batch_size (r ∷ rs);
    token = token;
    one_token = All-take (PaidIn token) max_batch_size (r ∷ rs) h;
  },
  chunks-IsPayable token fuel (drop max_batch_size (r ∷ rs))
      (All-drop (PaidIn token) max_batch_size (r ∷ rs) h),
)

IsNumbered-append :
    (n : ℕ) (bs : List Batch) (b : Batch)
    → IsNumbered n bs
    → b.index ≡ length bs + n
    → IsNumbered n (bs ++ b ∷ [])
IsNumbered-append n [] b h e = (omega arith, tt)
IsNumbered-append n (c ∷ bs) b h e = (h.0, IsNumbered-append (suc n) bs b h.1 (omega arith))

abbrev AreBatches : List Batch → Type 0
AreBatches bs = All IsBatch bs × IsNumbered 0 bs

push_batches-AreBatches :
    (bs : List Batch) (cs : List (List Recipient))
    → AreBatches bs
    → All IsPayable cs
    → AreBatches (push_batches bs cs)
unfolding push_batches
push_batches-AreBatches bs [] h k = h
push_batches-AreBatches bs (c ∷ cs) h k =
    let b : Batch = record { index = length bs; recipients = c; total_amount = sum_by units 0 c } in
    push_batches-AreBatches (bs ++ b ∷ []) cs
      (
        All-append IsBatch bs (b ∷ []) h.0 (record { payable = k.0; total = refl }, tt),
        IsNumbered-append 0 bs b h.1 (omega arith),
      )
      k.1

cut_groups-AreBatches :
    (bs : List Batch) (groups : Groups)
    → AreBatches bs
    → All IsGroup groups
    → AreBatches (cut_groups bs groups)
unfolding cut_groups
cut_groups-AreBatches bs [] h k = h
cut_groups-AreBatches bs ((token, rs) ∷ groups) h k =
    cut_groups-AreBatches (push_batches bs (chunks (length rs) rs)) groups
      (push_batches-AreBatches bs (chunks (length rs) rs) h
        (chunks-IsPayable token (length rs) rs k.0))
      k.1

-- Each batch holds between one and fifty recipients of a single token, carries the sum of their
-- amounts, and is numbered by its place.
pub split_into_batches-AreBatches :
    (rs : List Recipient)
    → All IsBatch (split_into_batches rs) × IsNumbered 0 (split_into_batches rs)
unfolding split_into_batches
split_into_batches-AreBatches rs =
    cut_groups-AreBatches [] (group_from [] rs) (tt, tt) (group_from-IsGroup [] rs tt)
