-- ===== src/Shm/Meta.antt =====
-- nvr_core/shm/frame.meta.go, and the layout of `FrameMetadata` in
-- cpp_engine/memory/SharedMemory.h. A byte is a number below 256.
use rm_vms.Base.{
  ℕ, zero, suc, ◌+◌, ◌-◌, ◌*◌, ◌/◌, ◌%◌, ◌^◌, ◌<◌, ◌≡◌, refl, Option, none, some, List, [], ◌∷◌,
  ◌++◌, arith, ltb, if◌then◌else◌, length, take, drop,
}
use rm_vms.Base.Int.{ℤ, pos, negsuc, IsInt64}

abbrev pub metadata_size : ℕ
metadata_size = 64

abbrev pub header_size : ℕ
header_size = 64

abbrev pub magic_number : ℕ
magic_number = 0xFFAABBCC

pub record FrameMetadata : Type 0 where
  pub magic : ℕ
  pub frame_size : ℕ
  pub epoch_ms : ℕ
  pub pts : ℤ
  pub dts : ℤ
  pub codec_id : ℕ
  pub is_key_frame : ℕ
  pub media_type : ℕ

-- `binary.LittleEndian`: the least byte first.
unfoldable pub le : List ℕ → ℕ
le [] = 0
le (b ∷ bs) = b + 256 * le bs

-- `bs[i:i+n]` where it is in range.
abbrev pub part : List ℕ → ℕ → ℕ → List ℕ
part bs i n = take n (drop i bs)

-- The first byte at an index that is in range.
abbrev pub byte_at : List ℕ → ℕ → ℕ
byte_at bs i = le (part bs i 1)

-- `int64(x)` of a uint64.
unfoldable pub signed64 : ℕ → ℤ
signed64 w = if ltb w (2 ^ 63) then pos w else negsuc (2 ^ 64 - 1 - w)

unfoldable pub get_magic : List ℕ → ℕ
unfolding le
get_magic meta_bytes = le (part meta_bytes 0 4)

-- `none` is the error "incomplete metadata header".
unfoldable pub load_from : List ℕ → Option FrameMetadata
unfolding le signed64
load_from meta_bytes =
    if ltb (length meta_bytes) metadata_size
    then none
    else some (record {
      magic = le (part meta_bytes 0 4);
      frame_size = le (part meta_bytes 4 4);
      epoch_ms = le (part meta_bytes 8 8);
      pts = signed64 (le (part meta_bytes 16 8));
      dts = signed64 (le (part meta_bytes 24 8));
      codec_id = le (part meta_bytes 32 4);
      is_key_frame = byte_at meta_bytes 36;
      media_type = byte_at meta_bytes 37;
    })

-- The C++ side: a number in the bytes of its field, and the struct of 64 bytes.
unfoldable pub le_bytes : ℕ → ℕ → List ℕ
le_bytes zero n = []
le_bytes (suc k) n = (n % 256) ∷ le_bytes k (n / 256)

unfoldable pub unsigned64 : ℤ → ℕ
unsigned64 (pos n) = n
unsigned64 (negsuc n) = 2 ^ 64 - 1 - n

abbrev pub padding : List ℕ
padding =
    0 ∷ 0 ∷ 0 ∷ 0 ∷ 0 ∷ 0 ∷ 0 ∷ 0 ∷ 0 ∷ 0 ∷ 0 ∷ 0 ∷ 0 ∷ 0 ∷ 0 ∷ 0 ∷ 0 ∷ 0 ∷ 0 ∷ 0 ∷ 0 ∷ 0 ∷ 0 ∷ 0
    ∷ 0 ∷ 0 ∷ []

unfoldable pub meta_bytes_of : FrameMetadata → List ℕ
unfolding le_bytes unsigned64
meta_bytes_of m =
    le_bytes 4 m.magic
    ++ (le_bytes 4 m.frame_size
        ++ (le_bytes 8 m.epoch_ms
            ++ (le_bytes 8 (unsigned64 m.pts)
                ++ (le_bytes 8 (unsigned64 m.dts)
                    ++ (le_bytes 4 m.codec_id
                        ++ (le_bytes 1 m.is_key_frame ++ (le_bytes 1 m.media_type ++ padding)))))))

-- Each field fits its width.
pub record IsMetadata (m : FrameMetadata) : Type 0 where
  pub magic_fits : m.magic < 2 ^ 32
  pub frame_size_fits : m.frame_size < 2 ^ 32
  pub epoch_ms_fits : m.epoch_ms < 2 ^ 64
  pub pts_fits : IsInt64 m.pts
  pub dts_fits : IsInt64 m.dts
  pub codec_id_fits : m.codec_id < 2 ^ 32
  pub is_key_frame_fits : m.is_key_frame < 256
  pub media_type_fits : m.media_type < 256

pow256 : ℕ → ℕ
pow256 zero = 1
pow256 (suc k) = 256 * pow256 k

le-le_bytes : (k n : ℕ) → n < pow256 k → le (le_bytes k n) ≡ n
unfolding le le_bytes pow256
le-le_bytes zero n h = omega arith
le-le_bytes (suc k) n h = omega (arith, le-le_bytes k (n / 256) (omega arith))

u8_bytes : (n : ℕ) → n < 256 → le (le_bytes 1 n) ≡ n
unfolding pow256
u8_bytes n h = le-le_bytes 1 n h

u32_bytes : (n : ℕ) → n < 2 ^ 32 → le (le_bytes 4 n) ≡ n
unfolding pow256
u32_bytes n h = le-le_bytes 4 n h

u64_bytes : (n : ℕ) → n < 2 ^ 64 → le (le_bytes 8 n) ≡ n
unfolding pow256
u64_bytes n h = le-le_bytes 8 n h

unsigned64_lt : (a : ℤ) → IsInt64 a → unsigned64 a < 2 ^ 64
unfolding unsigned64
unsigned64_lt (pos n) h = omega arith
unsigned64_lt (negsuc n) h = omega arith

signed64-unsigned64 : (a : ℤ) → IsInt64 a → signed64 (unsigned64 a) ≡ a
unfolding signed64 unsigned64
signed64-unsigned64 (pos n) h = ground arith
signed64-unsigned64 (negsuc n) h = ground arith

i64_bytes : (a : ℤ) → IsInt64 a → signed64 (le (le_bytes 8 (unsigned64 a))) ≡ a
i64_bytes a h = rw (u64_bytes (unsigned64 a) (unsigned64_lt a h)) (signed64-unsigned64 a h)

pub length-meta_bytes_of : (m : FrameMetadata) → length (meta_bytes_of m) ≡ 64
unfolding meta_bytes_of
length-meta_bytes_of m = refl

-- Behind whatever follows the header, the reader's first four bytes are the magic number.
pub get_magic-meta_bytes_of :
    (m : FrameMetadata) → m.magic < 2 ^ 32 → get_magic (meta_bytes_of m) ≡ m.magic
unfolding get_magic meta_bytes_of
get_magic-meta_bytes_of m h = u32_bytes m.magic h

-- Decoding the 64 bytes that C++ writes for a header whose fields fit their widths gives the
-- header back, field by field, the signed timestamps included.
pub load_from-meta_bytes_of :
    (m : FrameMetadata) → IsMetadata m → load_from (meta_bytes_of m) ≡ some m
unfolding load_from meta_bytes_of
load_from-meta_bytes_of m h = λ i. some (record {
  magic = u32_bytes m.magic h.magic_fits i;
  frame_size = u32_bytes m.frame_size h.frame_size_fits i;
  epoch_ms = u64_bytes m.epoch_ms h.epoch_ms_fits i;
  pts = i64_bytes m.pts h.pts_fits i;
  dts = i64_bytes m.dts h.dts_fits i;
  codec_id = u32_bytes m.codec_id h.codec_id_fits i;
  is_key_frame = u8_bytes m.is_key_frame h.is_key_frame_fits i;
  media_type = u8_bytes m.media_type h.media_type_fits i;
})
