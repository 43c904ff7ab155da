-- ===== src/Wire/Filters.antt =====
-- The filters of the queries on the wire (src/clients/python/src/archerdb/_native.py,
-- `query_radius_filter_to_wire`, `query_polygon_filter_to_wire`; types.py).
use archerdb.Base.{
  ℕ, ◌^◌, min, Bool, List, [], ◌∷◌, ◌++◌, Result, ok, err, and_then, length, ltb, if◌then◌else◌,
}
use archerdb.Base.Int.{ℤ, pos, negsuc}
use archerdb.Wire.{WireError, struct_error, le_bytes}
use archerdb.Wire.Bytes.{zeros}
use archerdb.Wire.Struct.{struct_bytes}
use archerdb.Wire.Event.{to_unsigned}

pub record QueryRadiusFilter : Type 0 where
  pub center_lat_nano : ℤ
  pub center_lon_nano : ℤ
  pub radius_mm : ℕ
  pub limit : ℕ
  pub timestamp_min : ℕ
  pub timestamp_max : ℕ
  pub group_id : ℕ

pub record PolygonVertex : Type 0 where
  pub lat_nano : ℤ
  pub lon_nano : ℤ

pub record PolygonHole : Type 0 where
  pub vertices : List PolygonVertex

pub record QueryPolygonFilter : Type 0 where
  pub vertices : List PolygonVertex
  pub holes : List PolygonHole
  pub limit : ℕ
  pub timestamp_min : ℕ
  pub timestamp_max : ℕ
  pub group_id : ℕ

-- `bytes(query_radius_filter_to_wire(filter))`: a greater radius than the field holds is cut to the
-- greatest one
unfoldable pub query_radius_filter_to_wire : QueryRadiusFilter → List ℕ
query_radius_filter_to_wire filter = struct_bytes (8 ∷ 8 ∷ 4 ∷ 4 ∷ 8 ∷ 8 ∷ 8 ∷ 80 ∷ []) (
    to_unsigned (2 ^ 63) filter.center_lat_nano
    ∷ to_unsigned (2 ^ 63) filter.center_lon_nano
    ∷ min filter.radius_mm 0xFFFFFFFF
    ∷ filter.limit
    ∷ filter.timestamp_min
    ∷ filter.timestamp_max
    ∷ filter.group_id
    ∷ [])

-- `struct.pack` of an unsigned number of `n` bytes, and of a signed one of 8
abbrev pub pack_unsigned : ℕ → ℕ → Result WireError (List ℕ)
pack_unsigned n v = if ltb v (256 ^ n) then ok (le_bytes n v) else err struct_error

abbrev pub fits_i64 : ℤ → Bool
fits_i64 (pos n) = ltb n (2 ^ 63)
fits_i64 (negsuc n) = ltb n (2 ^ 63)

abbrev pub pack_signed : ℤ → Result WireError (List ℕ)
pack_signed z = if fits_i64 z then ok (le_bytes 8 (to_unsigned (2 ^ 63) z)) else err struct_error

-- `first` and then `second`
abbrev pub packed_both :
    Result WireError (List ℕ) → Result WireError (List ℕ) → Result WireError (List ℕ)
packed_both first second = and_then first (λ bytes. and_then second (λ more. ok (bytes ++ more)))

unfoldable pub pack_vertices : List PolygonVertex → Result WireError (List ℕ)
pack_vertices [] = ok []
pack_vertices (v ∷ vertices) =
    packed_both (packed_both (pack_signed v.lat_nano) (pack_signed v.lon_nano))
      (pack_vertices vertices)

unfoldable pub pack_descriptors : List PolygonHole → Result WireError (List ℕ)
pack_descriptors [] = ok []
pack_descriptors (hole ∷ holes) =
    packed_both (packed_both (pack_unsigned 4 (length hole.vertices)) (ok (zeros 4)))
      (pack_descriptors holes)

unfoldable pub pack_hole_vertices : List PolygonHole → Result WireError (List ℕ)
unfolding pack_vertices
pack_hole_vertices [] = ok []
pack_hole_vertices (hole ∷ holes) =
    packed_both (pack_vertices hole.vertices) (pack_hole_vertices holes)

-- `struct.pack('<IIIIQQQ88s', ...)`
unfoldable pub polygon_header : QueryPolygonFilter → Result WireError (List ℕ)
polygon_header filter = packed_both (pack_unsigned 4 (length filter.vertices)) (
    packed_both (pack_unsigned 4 (length filter.holes)) (
      packed_both (pack_unsigned 4 filter.limit) (
        packed_both (ok (zeros 4)) (
          packed_both (pack_unsigned 8 filter.timestamp_min) (
            packed_both (pack_unsigned 8 filter.timestamp_max)
              (packed_both (pack_unsigned 8 filter.group_id) (ok (zeros 88))))))))

-- the exceptions of the header, of the vertices, and of each hole in turn are all `struct.error`
unfoldable pub query_polygon_filter_to_wire : QueryPolygonFilter → Result WireError (List ℕ)
unfolding polygon_header pack_vertices pack_descriptors pack_hole_vertices
query_polygon_filter_to_wire filter = packed_both (polygon_header filter) (
    packed_both (pack_vertices filter.vertices)
      (packed_both (pack_descriptors filter.holes) (pack_hole_vertices filter.holes)))
