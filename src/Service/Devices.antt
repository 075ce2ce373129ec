-- ===== src/Service/Devices.antt =====
-- `AddDevice`, `HandleAddDevice`, and the proposal of `distributeDevice`.
use node_messager.Base.{ℕ, String, not, Option, none, some, List, if◌then◌else◌}
use node_messager.Dto.{
  Node, Message, add_device, Codec, Outgoing, AddDevicePayload, IngenieroRow, DispositivoRow,
}
use node_messager.NodeState.{State, is_master, get_master_node}
use node_messager.Commit.{Codecs}
use node_messager.Service.Adding.{Proposal}
use node_messager.Service.Assign.{distribute_device}

-- What `AddDevice` does: it calls `distributeDevice`, or asks the master to, or finds no master.
pub data Adding : Type 0 where
  distribute : AddDevicePayload → Adding
  ask : Outgoing AddDevicePayload → Adding
  no_master : Adding

abbrev pub ask_master : AddDevicePayload → Option Node → Adding
ask_master p none = no_master
ask_master p (some master) = ask (record { to = master; type = add_device; payload = p })

abbrev pub device : String → String → AddDevicePayload
device nombre tipo = record { nombre = nombre; tipo = tipo }

unfoldable pub add_device_to : State → String → String → Adding
add_device_to st nombre tipo =
    if is_master st
    then distribute (device nombre tipo)
    else ask_master (device nombre tipo) (get_master_node st)

-- The payload with which `HandleAddDevice` calls `distributeDevice`, if it does.
unfoldable pub handle_add_device :
    {Raw : Type 0} → Codec Raw AddDevicePayload → State → Message Raw → Option AddDevicePayload
handle_add_device json st m = if not (is_master st) then none else json.unmarshal m.content

abbrev pub proposed :
    {Raw : Type 0} → Codecs Raw → Option (DispositivoRow × ℕ) → Option (Proposal Raw × ℕ)
proposed json none = none
proposed json (some (row, next)) =
    some (record { operation = "INSERT_DISPOSITIVO"; body = json.dispositivo.marshal row }, next)

-- `distributeDevice` with the answers of its two queries; none is an error before the proposal.
unfoldable pub propose_device :
    {Raw : Type 0}
    → Codecs Raw
    → Option (List IngenieroRow)
    → Option (List DispositivoRow)
    → AddDevicePayload
    → ℕ
    → Option (Proposal Raw × ℕ)
unfolding distribute_device
propose_device json engineers devices p counter =
    proposed json (distribute_device engineers devices p.nombre p.tipo counter)
