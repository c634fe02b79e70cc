-- ===== src/Tests/Registry.antt =====
-- Callbacks that are registered in two orders.
use native.Mathlib.Nat.{ℕ_set}
use rdml_blue_rov2_deploymen.Common.{ℕ, ◌+◌, ◌*◌, ◌≡◌, ◌↔◌, refl, arith, [], ◌∷◌}
use mathlib.Core.List.{foldl}
use rdml_blue_rov2_deploymen.Host.Ids.{PacketId, imu_data, cal_status, imu_01}
use rdml_blue_rov2_deploymen.Host.Packet.{Packet}
use rdml_blue_rov2_deploymen.Host.Packet.Frames.{parsed}
use rdml_blue_rov2_deploymen.Host.Client.{
  Client, new_client, Callback, call_all, dispatch, find_callbacks, push_callback,
  register_callback,
}
use rdml_blue_rov2_deploymen.Host.Client.Registry.{
  Registrations, registered, register_all, dispatch-register_all,
}
use rdml_blue_rov2_deploymen.Host.Client.Registry.Tables.{
  table_of, register_table, register_table_iff,
}

abbrev add : ℕ → Callback ℕ
add k packet n = n + k

abbrev double : Callback ℕ
double packet n = n * 2

abbrev client : Client ℕ
client = new_client

abbrev mixed : Registrations ℕ
mixed = (imu_data, double) ∷ (cal_status, add 1) ∷ (imu_data, add 3) ∷ []

abbrev sorted : Registrations ℕ
sorted = (cal_status, add 1) ∷ (imu_data, double) ∷ (imu_data, add 3) ∷ []

abbrev readings : Packet
readings = parsed imu_data imu_01 []

dispatch-register_all_example :
    dispatch (register_all mixed client) readings 4
    ≡ foldl (λ n callback. callback readings n) 4 (registered imu_data mixed)
dispatch-register_all_example = dispatch-register_all mixed client readings 4 refl

-- The product comes before the sum.
readings_result : dispatch (register_all mixed client) readings 4 ≡ 11
unfolding dispatch call_all find_callbacks push_callback register_callback
readings_result = refl

same_registered : (packet_id : PacketId) → registered packet_id mixed ≡ registered packet_id sorted
same_registered packet_id = ground arith

register_table_iff_example :
    (table_of (register_all mixed client) ≡ register_table mixed (table_of client))
    × ((register_table mixed (table_of client) ≡ register_table sorted (table_of client))
        ↔ ((packet_id : PacketId) → registered packet_id mixed ≡ registered packet_id sorted))
register_table_iff_example = register_table_iff ℕ_set mixed sorted client (table_of client)

mixed-sorted : register_table mixed (table_of client) ≡ register_table sorted (table_of client)
mixed-sorted = (register_table_iff ℕ_set mixed sorted client (table_of client)).1.1 same_registered
