-- ===== src/Wire/PolygonParts.antt =====
-- The parts of a polygon filter on the wire: how they are packed, and what a reader of the layout gets.
use archerdb.Base.{
  ℕ, zero, suc, ◌*◌, ◌^◌, ◌<◌, ◌≡◌, refl, ap, ◌∙◌, List, [], ◌∷◌, ◌++◌, Result, ok, length,
  length-append, take, drop, lt→ltb, arith, All,
}
use archerdb.Base.Int.{ℤ, pos, negsuc}
use mathlib.Core.List.{append_assoc}
use archerdb.Wire.{WireError, little, le_bytes}
use archerdb.Wire.Bytes.{zeros, little-le_bytes, drop-append_length}
use archerdb.Wire.Struct.{struct_values, struct_bytes, field, struct_values-struct_bytes}
use archerdb.Wire.Event.{to_signed, to_unsigned, FitsSigned, signed-unsigned, unsigned-lt}
use archerdb.Wire.Filters.{
  PolygonVertex, PolygonHole, pack_unsigned, pack_signed, packed_both, pack_vertices,
  pack_descriptors, pack_hole_vertices,
}

-- The reader: two signed numbers of 8 bytes for a vertex.
abbrev pub vertex_sizes : List ℕ
vertex_sizes = 8 ∷ 8 ∷ []

abbrev pub vertex_of : List ℕ → PolygonVertex
vertex_of values = record {
  lat_nano = to_signed (2 ^ 63) (field 0 values);
  lon_nano = to_signed (2 ^ 63) (field 1 values);
}

abbrev pub read_vertices : ℕ → List ℕ → List PolygonVertex
read_vertices zero bytes = []
read_vertices (suc n) bytes =
    vertex_of (struct_values vertex_sizes bytes) ∷ read_vertices n (drop 16 bytes)

-- The numbers of vertices of the holes, each with 4 more bytes; then the vertices of each hole.
abbrev pub read_counts : ℕ → List ℕ → List ℕ
read_counts zero bytes = []
read_counts (suc n) bytes = little (take 4 bytes) ∷ read_counts n (drop 8 bytes)

abbrev pub read_holes : List ℕ → List ℕ → List PolygonHole
read_holes [] bytes = []
read_holes (count ∷ counts) bytes =
    record { vertices = read_vertices count bytes } ∷ read_holes counts (drop (count * 16) bytes)

abbrev pub FitsVertex : PolygonVertex → Type 0
FitsVertex v = FitsSigned (2 ^ 63) v.lat_nano × FitsSigned (2 ^ 63) v.lon_nano

abbrev pub FitsHole : PolygonHole → Type 0
FitsHole hole = (length hole.vertices < 256 ^ 4) × All FitsVertex hole.vertices

-- the bytes of the parts, of which no number is too large
vertex_bytes : PolygonVertex → List ℕ
vertex_bytes v =
    struct_bytes vertex_sizes
      (to_unsigned (2 ^ 63) v.lat_nano ∷ to_unsigned (2 ^ 63) v.lon_nano ∷ [])

pub vertices_bytes : List PolygonVertex → List ℕ
vertices_bytes [] = []
vertices_bytes (v ∷ vertices) = vertex_bytes v ++ vertices_bytes vertices

pub descriptors_bytes : List PolygonHole → List ℕ
descriptors_bytes [] = []
descriptors_bytes (hole ∷ holes) =
    (le_bytes 4 (length hole.vertices) ++ zeros 4) ++ descriptors_bytes holes

pub holes_bytes : List PolygonHole → List ℕ
holes_bytes [] = []
holes_bytes (hole ∷ holes) = vertices_bytes hole.vertices ++ holes_bytes holes

pub counts_of : List PolygonHole → List ℕ
counts_of [] = []
counts_of (hole ∷ holes) = length hole.vertices ∷ counts_of holes

pub packed_both-ok :
    (first second : Result WireError (List ℕ)) (xs ys : List ℕ)
    → first ≡ ok xs
    → second ≡ ok ys
    → packed_both first second ≡ ok (xs ++ ys)
packed_both-ok first second xs ys h k =
    ap (λ r. packed_both r second) h ∙ ap (packed_both (ok xs)) k

pack_signed-fits :
    (z : ℤ) → FitsSigned (2 ^ 63) z → pack_signed z ≡ ok (le_bytes 8 (to_unsigned (2 ^ 63) z))
pack_signed-fits (pos n) fits = rw (lt→ltb n (2 ^ 63) fits) refl
pack_signed-fits (negsuc n) fits = rw (lt→ltb n (2 ^ 63) fits) refl

pub pack_unsigned-fits : (n v : ℕ) → v < 256 ^ n → pack_unsigned n v ≡ ok (le_bytes n v)
pack_unsigned-fits n v fits = rw (lt→ltb v (256 ^ n) fits) refl

pub pack_vertices-fits :
    (vertices : List PolygonVertex)
    → All FitsVertex vertices
    → pack_vertices vertices ≡ ok (vertices_bytes vertices)
unfolding pack_vertices vertices_bytes vertex_bytes
pack_vertices-fits [] fits = refl
pack_vertices-fits (v ∷ vertices) fits =
    let lat = to_unsigned (2 ^ 63) v.lat_nano in
    let lon = to_unsigned (2 ^ 63) v.lon_nano in
    packed_both-ok (packed_both (pack_signed v.lat_nano) (pack_signed v.lon_nano))
      (pack_vertices vertices) (le_bytes 8 lat ++ le_bytes 8 lon) (vertices_bytes vertices)
      (packed_both-ok (pack_signed v.lat_nano) (pack_signed v.lon_nano) (le_bytes 8 lat)
        (le_bytes 8 lon) (pack_signed-fits v.lat_nano fits.0.0)
        (pack_signed-fits v.lon_nano fits.0.1))
      (pack_vertices-fits vertices fits.1)

pub pack_descriptors-fits :
    (holes : List PolygonHole)
    → All FitsHole holes
    → pack_descriptors holes ≡ ok (descriptors_bytes holes)
unfolding pack_descriptors descriptors_bytes
pack_descriptors-fits [] fits = refl
pack_descriptors-fits (hole ∷ holes) fits =
    let count = length hole.vertices in
    packed_both-ok (packed_both (pack_unsigned 4 count) (ok (zeros 4))) (pack_descriptors holes)
      (le_bytes 4 count ++ zeros 4) (descriptors_bytes holes)
      (packed_both-ok (pack_unsigned 4 count) (ok (zeros 4)) (le_bytes 4 count) (zeros 4)
        (pack_unsigned-fits 4 count fits.0.0) refl)
      (pack_descriptors-fits holes fits.1)

pub pack_hole_vertices-fits :
    (holes : List PolygonHole)
    → All FitsHole holes
    → pack_hole_vertices holes ≡ ok (holes_bytes holes)
unfolding pack_hole_vertices holes_bytes
pack_hole_vertices-fits [] fits = refl
pack_hole_vertices-fits (hole ∷ holes) fits =
    packed_both-ok (pack_vertices hole.vertices) (pack_hole_vertices holes)
      (vertices_bytes hole.vertices) (holes_bytes holes) (pack_vertices-fits hole.vertices fits.0.1)
      (pack_hole_vertices-fits holes fits.1)

vertex_read :
    (v : PolygonVertex) (rest : List ℕ)
    → FitsVertex v
    → vertex_of (struct_values vertex_sizes (vertex_bytes v ++ rest)) ≡ v
unfolding vertex_bytes
vertex_read v rest fits =
    let lat = to_unsigned (2 ^ 63) v.lat_nano in
    let lon = to_unsigned (2 ^ 63) v.lon_nano in
    ap vertex_of (
      struct_values-struct_bytes vertex_sizes (lat ∷ lon ∷ []) rest (
        unsigned-lt (2 ^ 63) (256 ^ 8) v.lat_nano (omega arith) (omega arith),
        (unsigned-lt (2 ^ 63) (256 ^ 8) v.lon_nano (omega arith) (omega arith), tt),
      ))
    ∙ cc (signed-unsigned (2 ^ 63) v.lat_nano fits.0, signed-unsigned (2 ^ 63) v.lon_nano fits.1)

length-vertex_bytes : (v : PolygonVertex) → length (vertex_bytes v) ≡ 16
unfolding vertex_bytes
length-vertex_bytes v = refl

pub length-vertices_bytes :
    (vertices : List PolygonVertex) → length (vertices_bytes vertices) ≡ length vertices * 16
unfolding vertices_bytes
length-vertices_bytes [] = refl
length-vertices_bytes (v ∷ vertices) = omega (
  arith,
  length-append (vertex_bytes v) (vertices_bytes vertices),
  length-vertex_bytes v,
  length-vertices_bytes vertices,
)

pub read_vertices-vertices_bytes :
    (vertices : List PolygonVertex) (rest : List ℕ)
    → All FitsVertex vertices
    → read_vertices (length vertices) (vertices_bytes vertices ++ rest) ≡ vertices
unfolding vertices_bytes
read_vertices-vertices_bytes [] rest fits = refl
read_vertices-vertices_bytes (v ∷ vertices) rest fits =
    let more = vertices_bytes vertices ++ rest in
    ap (read_vertices (suc (length vertices)))
      (append_assoc (vertex_bytes v) (vertices_bytes vertices) rest)
    ∙ ap (λ x. x ∷ read_vertices (length vertices) (drop 16 (vertex_bytes v ++ more)))
        (vertex_read v more fits.0)
    ∙ ap (λ bytes. v ∷ read_vertices (length vertices) bytes)
        (drop-append_length 16 (vertex_bytes v) more (length-vertex_bytes v))
    ∙ ap (◌∷◌ v) (read_vertices-vertices_bytes vertices rest fits.1)

pub length-descriptors_bytes :
    (holes : List PolygonHole) → length (descriptors_bytes holes) ≡ length holes * 8
unfolding descriptors_bytes
length-descriptors_bytes [] = refl
length-descriptors_bytes (hole ∷ holes) = omega (arith, length-descriptors_bytes holes)

pub read_counts-descriptors_bytes :
    (holes : List PolygonHole) (rest : List ℕ)
    → All FitsHole holes
    → read_counts (length holes) (descriptors_bytes holes ++ rest) ≡ counts_of holes
unfolding descriptors_bytes counts_of
read_counts-descriptors_bytes [] rest fits = refl
read_counts-descriptors_bytes (hole ∷ holes) rest fits =
    ap (λ n. n ∷ read_counts (length holes) (descriptors_bytes holes ++ rest))
      (little-le_bytes 4 (length hole.vertices) fits.0.0)
    ∙ ap (◌∷◌ (length hole.vertices)) (read_counts-descriptors_bytes holes rest fits.1)

pub read_holes-holes_bytes :
    (holes : List PolygonHole) (rest : List ℕ)
    → All FitsHole holes
    → read_holes (counts_of holes) (holes_bytes holes ++ rest) ≡ holes
unfolding holes_bytes counts_of
read_holes-holes_bytes [] rest fits = refl
read_holes-holes_bytes (hole ∷ holes) rest fits =
    let count = length hole.vertices in
    let more = holes_bytes holes ++ rest in
    ap (read_holes (count ∷ counts_of holes))
      (append_assoc (vertices_bytes hole.vertices) (holes_bytes holes) rest)
    ∙ ap
        (λ vs.
          record { vertices = vs }
          ∷ read_holes (counts_of holes) (drop (count * 16) (vertices_bytes hole.vertices ++ more)))
        (read_vertices-vertices_bytes hole.vertices more fits.0.1)
    ∙ ap (λ bytes. hole ∷ read_holes (counts_of holes) bytes)
        (drop-append_length (count * 16) (vertices_bytes hole.vertices) more
          (length-vertices_bytes hole.vertices))
    ∙ ap (◌∷◌ hole) (read_holes-holes_bytes holes rest fits.1)
