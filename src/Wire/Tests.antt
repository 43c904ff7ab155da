-- ===== src/Wire/Tests.antt =====
-- A polygon on the wire, and the theorem at it.
use archerdb.Base.{ℕ, List, ◌≡◌, [], ◌∷◌, ok, arith}
use archerdb.Wire.Filters.{QueryPolygonFilter, query_polygon_filter_to_wire}
use archerdb.Wire.Polygon.{read_polygon, IsPolygon, query_polygon_filter_to_wire-read}
use archerdb.Base.Int.{pos, negsuc}

-- A triangle with a triangle cut out of it.
abbrev polygon : QueryPolygonFilter
polygon = record {
  vertices =
      record { lat_nano = negsuc 9; lon_nano = negsuc 9 }
      ∷ record { lat_nano = negsuc 9; lon_nano = pos 10 }
      ∷ record { lat_nano = pos 10; lon_nano = pos 0 }
      ∷ [];
  holes =
      record {
        vertices =
            record { lat_nano = pos 0; lon_nano = pos 0 }
            ∷ record { lat_nano = pos 1; lon_nano = pos 0 }
            ∷ record { lat_nano = pos 0; lon_nano = pos 1 }
            ∷ [];
      }
      ∷ [];
  limit = 100;
  timestamp_min = 0;
  timestamp_max = 5_000;
  group_id = 1;
}

polygon-IsPolygon : IsPolygon polygon
polygon-IsPolygon = record {
  vertices_fit =
      ((omega arith, omega arith), ((omega arith, omega arith), ((omega arith, omega arith), tt)));
  holes_fit = (
    (
      omega arith,
      ((omega arith, omega arith), ((omega arith, omega arith), ((omega arith, omega arith), tt))),
    ),
    tt,
  );
  few_vertices = omega arith;
  few_holes = omega arith;
  limit_fits = omega arith;
  min_fits = omega arith;
  max_fits = omega arith;
  group_fits = omega arith;
}

query_polygon_filter_to_wire-read_example :
    (bytes : List ℕ) × (query_polygon_filter_to_wire polygon ≡ ok bytes)
    × (read_polygon bytes ≡ polygon)
query_polygon_filter_to_wire-read_example =
    query_polygon_filter_to_wire-read polygon polygon-IsPolygon
