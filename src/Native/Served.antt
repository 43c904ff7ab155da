-- ===== src/Native/Served.antt =====
-- The administrative requests, from the client's call down to the bytes of the server's replies.
use archerdb.Base.{
  ℕ, ◌^◌, ◌≤◌, ◌<◌, ◌≡◌, refl, ap, ◌∙◌, true, List, [], ◌∷◌, ◌++◌, some, Result, ok, and_then,
  length, arith,
}
use archerdb.Wire.{le_bytes}
use archerdb.Wire.Bytes.{zeros}
use archerdb.Wire.Struct.{struct_bytes}
use archerdb.Wire.Cluster.{topology_from_bytes}
use archerdb.Wire.Sent.{server_bytes, IsTold, misread, length-server_bytes, server_bytes-misread}
use archerdb.Topology.{ShardInfo, TopologyResponse}
use archerdb.Native.{NativeClientResult}
use archerdb.Native.Writes.{NativeSubmit, has_bytes}
use archerdb.Native.Layout.{answered}
use archerdb.Native.Replies.{judge_bytes-long}
use archerdb.Native.Admin.{
  AdminError, StatusResponse, status_sizes, judge_bytes, checked, requested, fetch_topology,
}

-- What a server tells of itself, with 4 bytes of padding behind the load and 16 more bytes.
abbrev pub status_reply : StatusResponse → List ℕ
status_reply s =
    struct_bytes status_sizes (
      s.ram_index_count ∷ s.ram_index_capacity ∷ s.ram_index_load_pct ∷ 0 ∷ s.tombstone_count
      ∷ s.ttl_expirations ∷ s.deletion_count ∷ [])
    ++ zeros 16

pub record IsStatus (s : StatusResponse) : Type 0 where
  pub count_fits : s.ram_index_count < 256 ^ 8
  pub capacity_fits : s.ram_index_capacity < 256 ^ 8
  pub load_fits : s.ram_index_load_pct < 256 ^ 4
  pub tombstones_fit : s.tombstone_count < 256 ^ 8
  pub expirations_fit : s.ttl_expirations < 256 ^ 8
  pub deletions_fit : s.deletion_count < 256 ^ 8

some_byte : (bytes : List ℕ) → 1 ≤ length bytes → has_bytes (some bytes) ≡ true
some_byte [] h = absurd (omega arith)
some_byte (b ∷ bytes) h = refl

-- When the server answers the request for the topology with its struct of 7,616 bytes, whose last
-- change was at a time of 63 bits, the client gets the version, the number of shards and the shards,
-- but another cluster's id than the server's: the id moved up by 32 bits, without its top bits. It
-- gets those bits as the low end of the time of the last change, which is moved up as well, and 0,
-- which stands for idle, for every resharding status and all flags.
pub topology_misread :
    (submit : NativeSubmit) (t : TopologyResponse) (change : ℕ) (slots : List ShardInfo)
    → IsTold t change slots
    → submit 157 (le_bytes 8 0) ≡ ok (answered (server_bytes t change slots))
    → fetch_topology submit ≡ ok (misread t change)
unfolding fetch_topology
topology_misread submit t change slots told answer =
    let bytes = server_bytes t change slots in
    let some_bytes : 1 ≤ length bytes = omega (arith, length-server_bytes t change slots told) in
    let finish : NativeClientResult → Result AdminError TopologyResponse =
      λ result. and_then (judge_bytes 1 result) (λ bytes. checked (topology_from_bytes bytes)) in
    ap (λ a. and_then (requested a) finish) answer
    ∙ ap (λ x. and_then x (λ bytes. checked (topology_from_bytes bytes)))
        (judge_bytes-long 1 bytes (some_byte bytes some_bytes) some_bytes)
    ∙ ap checked (server_bytes-misread t change slots told)
