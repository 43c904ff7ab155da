-- ===== src/Wire/Polygon.antt =====
-- What a reader of the layout gets from a polygon filter that was sent.
use archerdb.Base.{
  ℕ, ◌*◌, ◌^◌, ◌<◌, ◌≡◌, refl, sym, ap, ◌∙◌, List, [], ◌∷◌, ◌++◌, ok, length, drop, lt→ltb, arith,
  All,
}
use mathlib.Core.List.{append-nil}
use archerdb.Wire.Bytes.{drop-append_length}
use archerdb.Wire.Struct.{
  struct_values, struct_bytes, field, struct_values-struct_bytes, length-struct_bytes,
}
use archerdb.Wire.Filters.{
  QueryPolygonFilter, packed_both, pack_vertices, pack_descriptors, pack_hole_vertices,
  polygon_header, query_polygon_filter_to_wire,
}
use archerdb.Wire.PolygonParts.{
  read_vertices, read_counts, read_holes, FitsVertex, FitsHole, vertices_bytes, descriptors_bytes,
  holes_bytes, counts_of, packed_both-ok, pack_vertices-fits, pack_descriptors-fits,
  pack_hole_vertices-fits, length-vertices_bytes, read_vertices-vertices_bytes,
  length-descriptors_bytes, read_counts-descriptors_bytes, read_holes-holes_bytes,
}

abbrev pub header_sizes : List ℕ
header_sizes = 4 ∷ 4 ∷ 4 ∷ 4 ∷ 8 ∷ 8 ∷ 8 ∷ 88 ∷ []

-- The outer vertices, the descriptors of the holes, and their vertices, by the numbers of a header.
abbrev pub read_body : List ℕ → List ℕ → QueryPolygonFilter
read_body values body =
    let descriptors = drop (field 0 values * 16) body in
    record {
      vertices = read_vertices (field 0 values) body;
      holes =
          read_holes (read_counts (field 1 values) descriptors)
            (drop (field 1 values * 8) descriptors);
      limit = field 2 values;
      timestamp_min = field 4 values;
      timestamp_max = field 5 values;
      group_id = field 6 values;
    }

-- A header of 128 bytes, and the rest.
abbrev pub read_polygon : List ℕ → QueryPolygonFilter
read_polygon bytes = read_body (struct_values header_sizes bytes) (drop 128 bytes)

-- A polygon whose numbers the fields can hold.
pub record IsPolygon (filter : QueryPolygonFilter) : Type 0 where
  pub vertices_fit : All FitsVertex filter.vertices
  pub holes_fit : All FitsHole filter.holes
  pub few_vertices : length filter.vertices < 256 ^ 4
  pub few_holes : length filter.holes < 256 ^ 4
  pub limit_fits : filter.limit < 256 ^ 4
  pub min_fits : filter.timestamp_min < 256 ^ 8
  pub max_fits : filter.timestamp_max < 256 ^ 8
  pub group_fits : filter.group_id < 256 ^ 8

header_values : QueryPolygonFilter → List ℕ
header_values filter =
    length filter.vertices
    ∷ length filter.holes
    ∷ filter.limit
    ∷ 0
    ∷ filter.timestamp_min
    ∷ filter.timestamp_max
    ∷ filter.group_id
    ∷ 0
    ∷ []

header_bytes : QueryPolygonFilter → List ℕ
unfolding header_values
header_bytes filter = struct_bytes header_sizes (header_values filter)

polygon_header-fits :
    (filter : QueryPolygonFilter)
    → IsPolygon filter
    → polygon_header filter ≡ ok (header_bytes filter)
unfolding polygon_header header_bytes header_values
polygon_header-fits filter h =
    rw
      (
        lt→ltb (length filter.vertices) (256 ^ 4) h.few_vertices,
        lt→ltb (length filter.holes) (256 ^ 4) h.few_holes,
        lt→ltb filter.limit (256 ^ 4) h.limit_fits,
        lt→ltb filter.timestamp_min (256 ^ 8) h.min_fits,
        lt→ltb filter.timestamp_max (256 ^ 8) h.max_fits,
        lt→ltb filter.group_id (256 ^ 8) h.group_fits,
      )
      refl

header_read :
    (filter : QueryPolygonFilter) (rest : List ℕ)
    → IsPolygon filter
    → struct_values header_sizes (header_bytes filter ++ rest) ≡ header_values filter
unfolding header_bytes header_values
header_read filter rest h = struct_values-struct_bytes header_sizes (header_values filter) rest (
  h.few_vertices,
  (
    h.few_holes,
    (h.limit_fits, (omega arith, (h.min_fits, (h.max_fits, (h.group_fits, (omega arith, tt)))))),
  ),
)

length-header_bytes : (filter : QueryPolygonFilter) → length (header_bytes filter) ≡ 128
unfolding header_bytes
length-header_bytes filter = length-struct_bytes header_sizes (header_values filter)

body_read :
    (filter : QueryPolygonFilter)
    → IsPolygon filter
    → read_body (header_values filter) (
        vertices_bytes filter.vertices
        ++ (descriptors_bytes filter.holes ++ holes_bytes filter.holes))
      ≡ filter
unfolding header_values
body_read filter h =
    let n = length filter.vertices in
    let m = length filter.holes in
    let tail = descriptors_bytes filter.holes ++ holes_bytes filter.holes in
    let outer = read_vertices-vertices_bytes filter.vertices tail h.vertices_fit in
    let at_descriptors =
      drop-append_length (n * 16) (vertices_bytes filter.vertices) tail
        (length-vertices_bytes filter.vertices) in
    let counts =
      read_counts-descriptors_bytes filter.holes (holes_bytes filter.holes) h.holes_fit in
    let at_holes =
      drop-append_length (m * 8) (descriptors_bytes filter.holes) (holes_bytes filter.holes)
        (length-descriptors_bytes filter.holes) in
    let inner =
      ap (λ b. read_holes (counts_of filter.holes) b) (sym (append-nil (holes_bytes filter.holes)))
      ∙ read_holes-holes_bytes filter.holes [] h.holes_fit in
    ap
      (λ vs. record filter {
        vertices = vs;
        holes =
            read_holes (read_counts m (drop (n * 16) (vertices_bytes filter.vertices ++ tail)))
              (drop (m * 8) (drop (n * 16) (vertices_bytes filter.vertices ++ tail)));
      })
      outer
    ∙ ap (λ d. record filter { holes = read_holes (read_counts m d) (drop (m * 8) d) })
        at_descriptors
    ∙ ap (λ cs. record filter { holes = read_holes cs (drop (m * 8) tail) }) counts
    ∙ ap (λ b. record filter { holes = read_holes (counts_of filter.holes) b }) at_holes
    ∙ ap (λ hs. record filter { holes = hs }) inner

-- A polygon filter whose numbers fit their fields is sent, and a reader of the layout that takes the
-- numbers of vertices and of holes from the header gets the same filter back: its vertices, its holes
-- in order, each with its own vertices, and its limits.
pub query_polygon_filter_to_wire-read :
    (filter : QueryPolygonFilter)
    → IsPolygon filter
    → (bytes : List ℕ) × (query_polygon_filter_to_wire filter ≡ ok bytes)
      × (read_polygon bytes ≡ filter)
unfolding query_polygon_filter_to_wire
query_polygon_filter_to_wire-read filter h =
    let outer = vertices_bytes filter.vertices in
    let descriptors = descriptors_bytes filter.holes in
    let inner = holes_bytes filter.holes in
    let body = outer ++ (descriptors ++ inner) in
    (
      header_bytes filter ++ body,
      packed_both-ok (polygon_header filter)
          (packed_both (pack_vertices filter.vertices)
            (packed_both (pack_descriptors filter.holes) (pack_hole_vertices filter.holes)))
          (header_bytes filter) body (polygon_header-fits filter h)
          (packed_both-ok (pack_vertices filter.vertices)
            (packed_both (pack_descriptors filter.holes) (pack_hole_vertices filter.holes)) outer
            (descriptors ++ inner) (pack_vertices-fits filter.vertices h.vertices_fit)
            (packed_both-ok (pack_descriptors filter.holes) (pack_hole_vertices filter.holes)
              descriptors inner (pack_descriptors-fits filter.holes h.holes_fit)
              (pack_hole_vertices-fits filter.holes h.holes_fit))),
      ap (λ values. read_body values (drop 128 (header_bytes filter ++ body)))
            (header_read filter body h)
          ∙ ap (read_body (header_values filter))
              (drop-append_length 128 (header_bytes filter) body (length-header_bytes filter))
          ∙ body_read filter h,
    )
