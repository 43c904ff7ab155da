-- ===== src/Wire/Event.antt =====
-- An event on the wire (src/clients/python/src/archerdb/_native.py, `geo_event_to_wire`,
-- `wire_to_geo_event`; bindings.py, `CGeoEvent`).
use Prim.Native.Nat.{bit_or}
use archerdb.Base.{
  ℕ, ◌+◌, ◌*◌, ◌-◌, ◌%◌, ◌^◌, ◌≤◌, ◌<◌, ◌≡◌, refl, ap, ◌∙◌, List, [], ◌∷◌, ◌++◌, leb, ◌==◌,
  if◌then◌else◌, if_elim, gt→leb, le→leb, arith, length,
}
use native.Mathlib.Nat.{mod-lt, mod-eq_of_lt}
use archerdb.Base.Bits.{bit_or_shifted, bit_or-zero}
use archerdb.Base.Int.{ℤ, pos, negsuc, sub_ℕ}
use archerdb.Types.{GeoEvent}
use archerdb.Wire.Struct.{
  field, struct_values, struct_bytes, Fits, struct_values-struct_bytes, length-struct_bytes,
}

-- `CGeoEvent._fields_`: four numbers of 128 bits, the coordinates, `group_id` and `timestamp` of 64,
-- four of 32, `heading_cdeg` and `flags` of 16, and the 12 reserved bytes
abbrev pub event_sizes : List ℕ
event_sizes = 16 ∷ 16 ∷ 16 ∷ 16 ∷ 8 ∷ 8 ∷ 8 ∷ 8 ∷ 4 ∷ 4 ∷ 4 ∷ 4 ∷ 2 ∷ 2 ∷ 12 ∷ []

-- an unsigned number, read as a signed one of as many bits, of which this is the sign's worth
abbrev pub to_signed : ℕ → ℕ → ℤ
to_signed half n = if leb half n then sub_ℕ n (2 * half) else pos n

-- what a field of ctypes keeps of a number of Python, as an unsigned number
abbrev pub to_unsigned : ℕ → ℤ → ℕ
to_unsigned half (pos n) = n % (2 * half)
to_unsigned half (negsuc n) = 2 * half - 1 - n % (2 * half)

-- `to_python`
abbrev pub to_python : List ℕ → GeoEvent
to_python values = record {
  id = field 0 values;
  entity_id = field 1 values;
  correlation_id = field 2 values;
  user_data = field 3 values;
  lat_nano = to_signed (2 ^ 63) (field 4 values);
  lon_nano = to_signed (2 ^ 63) (field 5 values);
  group_id = field 6 values;
  timestamp = field 7 values;
  altitude_mm = to_signed (2 ^ 31) (field 8 values);
  velocity_mms = field 9 values;
  ttl_seconds = field 10 values;
  accuracy_mm = field 11 values;
  heading_cdeg = pos (field 12 values);
  flags = field 13 values;
}

-- `wire_to_geo_event(CGeoEvent.from_buffer_copy(bytes))`
unfoldable pub wire_to_geo_event : List ℕ → GeoEvent
wire_to_geo_event bytes = to_python (struct_values event_sizes bytes)

abbrev pub size_of : ℤ → ℕ
size_of (pos n) = n
size_of (negsuc n) = n + 1

-- `abs(lat_nano * lon_nano) & 0xFFFFFFFFFFFFFFFF`
abbrev pub compute_pseudo_s2_cell : ℤ → ℤ → ℕ
compute_pseudo_s2_cell lat_nano lon_nano = size_of lat_nano * size_of lon_nano % 2 ^ 64

abbrev pub pack_composite_id : ℕ → ℕ → ℕ
pack_composite_id s2_cell_id timestamp_ns = bit_or (s2_cell_id * 2 ^ 64) (timestamp_ns % 2 ^ 64)

-- the id that is sent, for this reading of `time.time_ns`
abbrev pub sent_id : ℕ → GeoEvent → ℕ
sent_id time_ns e =
    if e.id == 0
    then pack_composite_id (compute_pseudo_s2_cell e.lat_nano e.lon_nano) time_ns
    else e.id

abbrev pub values_of : ℕ → GeoEvent → List ℕ
values_of time_ns e =
    sent_id time_ns e
    ∷ e.entity_id
    ∷ e.correlation_id
    ∷ e.user_data
    ∷ to_unsigned (2 ^ 63) e.lat_nano
    ∷ to_unsigned (2 ^ 63) e.lon_nano
    ∷ e.group_id
    ∷ e.timestamp
    ∷ to_unsigned (2 ^ 31) e.altitude_mm
    ∷ e.velocity_mms
    ∷ e.ttl_seconds
    ∷ e.accuracy_mm
    ∷ to_unsigned (2 ^ 15) e.heading_cdeg
    ∷ e.flags
    ∷ 0
    ∷ []

-- `bytes(geo_event_to_wire(event))`
unfoldable pub geo_event_to_wire : ℕ → GeoEvent → List ℕ
geo_event_to_wire time_ns e = struct_bytes event_sizes (values_of time_ns e)

abbrev pub FitsSigned : ℕ → ℤ → Type 0
FitsSigned half (pos n) = n < half
FitsSigned half (negsuc n) = n < half

abbrev pub FitsUnsigned : ℕ → ℤ → Type 0
FitsUnsigned limit (pos n) = n < limit
FitsUnsigned limit (negsuc n) = ⊥

-- An event whose numbers the fields can hold.
pub record IsSendable (e : GeoEvent) : Type 0 where
  pub id_fits : e.id < 256 ^ 16
  pub entity_fits : e.entity_id < 256 ^ 16
  pub correlation_fits : e.correlation_id < 256 ^ 16
  pub user_data_fits : e.user_data < 256 ^ 16
  pub lat_fits : FitsSigned (2 ^ 63) e.lat_nano
  pub lon_fits : FitsSigned (2 ^ 63) e.lon_nano
  pub group_fits : e.group_id < 256 ^ 8
  pub timestamp_fits : e.timestamp < 256 ^ 8
  pub altitude_fits : FitsSigned (2 ^ 31) e.altitude_mm
  pub velocity_fits : e.velocity_mms < 256 ^ 4
  pub ttl_fits : e.ttl_seconds < 256 ^ 4
  pub accuracy_fits : e.accuracy_mm < 256 ^ 4
  pub heading_fits : FitsUnsigned (2 ^ 16) e.heading_cdeg
  pub flags_fit : e.flags < 256 ^ 2

pub signed-unsigned :
    (half : ℕ) (z : ℤ) → FitsSigned half z → to_signed half (to_unsigned half z) ≡ z
signed-unsigned half (pos n) fits =
    let small : n < half = fits in
    let whole = mod-eq_of_lt {n = n} {m = 2 * half} (omega (arith, small)) in
    rw (whole, gt→leb half n small) refl
signed-unsigned half (negsuc n) fits =
    let small : n < half = fits in
    let whole = mod-eq_of_lt {n = n} {m = 2 * half} (omega (arith, small)) in
    rw
      (
        whole,
        le→leb half (2 * half - 1 - n) (omega (arith, small)),
        gt→leb (2 * half) (2 * half - 1 - n) (omega (arith, small)),
      )
      (ap negsuc (omega (arith, small)))

pub unsigned-lt :
    (half limit : ℕ) (z : ℤ) → 0 < half → 2 * half ≤ limit → to_unsigned half z < limit
unsigned-lt half limit (pos n) some_half h =
    omega (arith, h, mod-lt n {m = 2 * half} (omega (arith, some_half)))
unsigned-lt half limit (negsuc n) some_half h = omega (arith, some_half, h)

unsigned-pos : (z : ℤ) → FitsUnsigned (2 ^ 16) z → pos (to_unsigned (2 ^ 15) z) ≡ z
unsigned-pos (pos n) fits = let small : n < 2 ^ 16 = fits in ap pos (omega (arith, small))
unsigned-pos (negsuc n) fits = absurd fits

composite-lt : (cell time_ns : ℕ) → cell < 2 ^ 64 → pack_composite_id cell time_ns < 256 ^ 16
composite-lt cell time_ns small =
    let low = time_ns % 2 ^ 64 in
    let value =
      bit_or_shifted 64 cell 0 low (omega arith) ∙ ap (λ n. n * 2 ^ 64 + low) (bit_or-zero cell) in
    omega (
      arith,
      small,
      ap (bit_or (cell * 2 ^ 64)) {x = low} {y = 0 * 2 ^ 64 + low} (omega arith),
      value,
    )

sent_id-lt : (time_ns : ℕ) (e : GeoEvent) → e.id < 256 ^ 16 → sent_id time_ns e < 256 ^ 16
sent_id-lt time_ns e fits =
    if_elim (λ n. n < 256 ^ 16) (e.id == 0)
      (λ none. composite-lt (compute_pseudo_s2_cell e.lat_nano e.lon_nano) time_ns (omega arith))
      (λ own. fits)

values-Fits : (time_ns : ℕ) (e : GeoEvent) → IsSendable e → Fits event_sizes (values_of time_ns e)
values-Fits time_ns e h = (
  sent_id-lt time_ns e h.id_fits,
  (
    h.entity_fits,
    (
      h.correlation_fits,
      (
        h.user_data_fits,
        (
          unsigned-lt (2 ^ 63) (256 ^ 8) e.lat_nano (omega arith) (omega arith),
          (
            unsigned-lt (2 ^ 63) (256 ^ 8) e.lon_nano (omega arith) (omega arith),
            (
              h.group_fits,
              (
                h.timestamp_fits,
                (
                  unsigned-lt (2 ^ 31) (256 ^ 4) e.altitude_mm (omega arith) (omega arith),
                  (
                    h.velocity_fits,
                    (
                      h.ttl_fits,
                      (
                        h.accuracy_fits,
                        (
                          unsigned-lt (2 ^ 15) (256 ^ 2) e.heading_cdeg (omega arith) (omega arith),
                          (h.flags_fit, (omega arith, tt)),
                        ),
                      ),
                    ),
                  ),
                ),
              ),
            ),
          ),
        ),
      ),
    ),
  ),
)

pub length-geo_event_to_wire :
    (time_ns : ℕ) (e : GeoEvent) → length (geo_event_to_wire time_ns e) ≡ 128
unfolding geo_event_to_wire
length-geo_event_to_wire time_ns e = length-struct_bytes event_sizes (values_of time_ns e)

-- An event whose numbers fit their fields, sent at any time, is read back from its 128 bytes as it
-- was; an event without an id gets the composite one.
pub wire_to_geo_event-geo_event_to_wire :
    (time_ns : ℕ) (e : GeoEvent) (rest : List ℕ)
    → IsSendable e
    → wire_to_geo_event (geo_event_to_wire time_ns e ++ rest) ≡ record e { id = sent_id time_ns e }
unfolding wire_to_geo_event geo_event_to_wire
wire_to_geo_event-geo_event_to_wire time_ns e rest h =
    ap to_python
      (struct_values-struct_bytes event_sizes (values_of time_ns e) rest (values-Fits time_ns e h))
    ∙ cc (
      signed-unsigned (2 ^ 63) e.lat_nano h.lat_fits,
      signed-unsigned (2 ^ 63) e.lon_nano h.lon_fits,
      signed-unsigned (2 ^ 31) e.altitude_mm h.altitude_fits,
      unsigned-pos e.heading_cdeg h.heading_fits,
    )
