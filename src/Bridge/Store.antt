-- ===== src/Bridge/Store.antt =====
-- bridge/bridge-lifecycle.service.ts: the helpers that read, check and write an intent's row.
use wizpay_core.Prelude.{
  String, Bool, ◌&&◌, not, if◌then◌else◌, Option, none, some, find, update_where, List, any,
  is_some, ◌||◌,
}
use wizpay_core.Prelude.Text.{same, same?, truthy, or_empty}
use wizpay_core.Prelude.Outcome.{
  Handler, Outcome, done, threw, Error, not_found, failure, rejected, forbidden, unavailable,
  conflict,
}
use wizpay_core.Chain.{is_0x_hex}
use wizpay_core.Bridge.{Row, Db, View, Runtime}
use wizpay_core.Bridge.Registry.{get_bridge_chain}

abbrev pub has_id : String → Row → Bool
has_id id row = same row.id id

abbrev pub bridge_hash_conflict : Error
bridge_hash_conflict = conflict "BRIDGE_HASH_CONFLICT"

abbrev pub bridge_message_conflict : Error
bridge_message_conflict = conflict "BRIDGE_MESSAGE_CONFLICT"

abbrev pub attestation_required : Error
attestation_required = conflict "BRIDGE_ATTESTATION_REQUIRED"

abbrev pub attestation_mismatch : Error
attestation_mismatch = conflict "BRIDGE_ATTESTATION_MISMATCH"

abbrev pub intent_forbidden : Error
intent_forbidden = forbidden "BRIDGE_INTENT_FORBIDDEN"

abbrev pub invalid_hash : Error
invalid_hash = rejected "BRIDGE_INVALID_HASH"

abbrev pub configuration_unavailable : Error
configuration_unavailable = unavailable "BRIDGE_CONFIGURATION_UNAVAILABLE"

unfoldable pub required : String → Handler Db Row
required id db = elim (find (has_id id) db.rows) [
  | none ↦ (db, threw not_found)
  | some row ↦ (db, done row)
]

-- A unique column that a write changes, to the value that another row has.
abbrev pub takes : Option String → Option String → Option String → Bool
takes old new held = is_some new && not (same? new old) && same? new held

-- `messageHash`, `nonce`, `destinationTransactionHash` and `destinationLeaseId` are unique.
abbrev pub takes_of : Row → Row → Row → Bool
takes_of old new other =
    takes old.message_hash new.message_hash other.message_hash
    || takes old.nonce new.nonce other.nonce
    || takes old.destination_transaction_hash new.destination_transaction_hash
        other.destination_transaction_hash
    || takes old.destination_lease_id new.destination_lease_id other.destination_lease_id

unfoldable pub collides : String → Row → Row → List Row → Bool
collides id old new rows = any (λ other. not (has_id id other) && takes_of old new other) rows

-- `bridgeTransaction.update({ where: { id }, data })`, which throws where there is no such row, and
-- where another row has the value of a unique column.
unfoldable pub update : String → (Row → Row) → Handler Db Row
update id set db = elim (find (has_id id) db.rows) [
  | none ↦ (db, threw failure)
  | some row ↦
      if collides id row (set row) db.rows
      then (db, threw failure)
      else (record db { rows = update_where (has_id id) set db.rows }, done (set row))
]

module _ (env : Runtime) where
  open env use {is_address, get_address, is_address_equal, lower}

  abbrev pub owns : Row → String → Bool
  owns row wallet_address =
      is_address row.payload.wallet_address
      && is_address wallet_address
      && is_address_equal (get_address row.payload.wallet_address) (get_address wallet_address)

  unfoldable pub ownership : Row → String → Outcome (Unit {0})
  ownership row wallet_address = if owns row wallet_address then done tt else threw intent_forbidden

  unfoldable pub tx_hash : String → Outcome String
  tx_hash value = if is_0x_hex 64 value then done (lower value) else threw invalid_hash

  -- A hash is recorded, and it is another one, or the same.
  abbrev pub conflicts : Option String → String → Bool
  conflicts recorded hash = truthy recorded && not (same (lower (or_empty recorded)) (lower hash))

  abbrev pub repeats : Option String → String → Bool
  repeats recorded hash = truthy recorded && same (lower (or_empty recorded)) (lower hash)

  -- An error of the registry, which `view` does not catch, is none of the service's.
  unfoldable pub view : Row → Outcome View
  view row =
      if not env.resources_available
      then threw configuration_unavailable
      else (elim (get_bridge_chain row.payload.source_code) [
        | threw e ↦ threw e
        | done source ↦ elim (get_bridge_chain row.payload.destination_code) [
          | threw e ↦ threw e
          | done destination ↦ done (record {
            id = row.id;
            status = row.status;
            payload = row.payload;
            result = row.result;
          })
        ]
      ])
