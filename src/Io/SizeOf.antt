-- ===== src/Io/SizeOf.antt =====
-- io/size_of.h and the size computations of io/array.h, io/composite.h and the versioned types.
use ozo_pg.Base.{
  ℕ, ◌+◌, ◌-◌, ◌*◌, ◌%◌, ◌^◌, List, [], ◌∷◌, none, some, Bool, true, false, ltb, if◌then◌else◌,
  length,
}
use ozo_pg.Io.Types.{
  Presence, required, nullable, Slot, PgType, Fields, integral, boolean, text, versioned, array,
  composite, end, field, El, Els, is_static_size,
}

-- A `size_type` is an `int32_t`, kept as its bit pattern: the negative ones are at or above `2 ^ 31`.
abbrev pub null_state_size : ℕ
null_state_size = 0xffff_ffff

abbrev pub is_negative : ℕ → Bool
is_negative size = if ltb size (2 ^ 31) then false else true

-- `size_of`, over the implementation for the unwrapped type.
unfoldable pub size_of : (p : Presence) {A : Type 0} → (A → ℕ) → Slot p A → ℕ
size_of required impl v = impl v % 2 ^ 32
size_of nullable impl none = null_state_size
size_of nullable impl (some v) = impl v % 2 ^ 32

-- `sizeof(size_type) + std::max(size_of(v), 0)`
unfoldable pub data_frame_size : ℕ → ℕ
data_frame_size size = 4 + (if is_negative size then 0 else size)

unfoldable pub frame_size : ℕ → ℕ
frame_size size = 4 + data_frame_size size

-- `boost::accumulate(v, size_type(0), ...)`. A sum of two `size_type` that leaves it is undefined, and wraps
-- around here.
unfoldable pub accumulate_frames : {A : Type 0} → (A → ℕ) → List A → ℕ
accumulate_frames size [] = 0
accumulate_frames size (v ∷ vs) = (data_frame_size (size v) + accumulate_frames size vs) % 2 ^ 32

-- Elements of static size are not visited: the first one's frame counts for each. The result is a
-- `size_type`.
unfoldable pub array_data_size : Bool → {A : Type 0} → (A → ℕ) → List A → ℕ
array_data_size true size [] = 0
array_data_size true size (v ∷ vs) = (data_frame_size (size v) * length (v ∷ vs)) % 2 ^ 32
array_data_size false size vs = accumulate_frames size vs

-- `pg_array` has three members of four bytes, `pg_array_dimension` two.
abbrev pub array_header_size : ℕ
array_header_size = 12

abbrev pub dimension_header_size : ℕ
dimension_header_size = 8

-- A `size_type` as a `size_t`, which is what a sum with a `sizeof` makes of it.
abbrev pub to_size_t : ℕ → ℕ
to_size_t size = if is_negative size then size + (2 ^ 64 - 2 ^ 32) else size

-- `size_of_impl::apply`: a `size_t` of an array, a `size_type` of a composite.
unfoldable mutual
  unfolding array_data_size accumulate_frames size_of frame_size data_frame_size

  pub size_of_impl : (t : PgType) → El t → ℕ
  size_of_impl (integral o w) v = w
  size_of_impl (boolean o) v = 1
  size_of_impl (text o) v = length v
  size_of_impl (versioned o) v = length v + 1
  size_of_impl (array o c p t) v =
      (array_header_size
        + dimension_header_size
        + to_size_t (array_data_size (is_static_size t) (size_of p (size_of_impl t)) v))
      % 2 ^ 64
  size_of_impl (composite o fs) v = (4 + data_size fs v) % 2 ^ 32

  pub data_size : (fs : Fields) → Els fs → ℕ
  data_size end v = 0
  data_size (field p t fs) v =
      (frame_size (size_of p (size_of_impl t) v.0) + data_size fs v.1) % 2 ^ 32
