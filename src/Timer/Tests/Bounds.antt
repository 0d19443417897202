-- ===== src/Timer/Tests/Bounds.antt =====
-- Integers at the edge of the narrower types.
use nim_ffi.Base.{ℕ, ℤ, pos, negsuc, ◌<◌, ◌^◌}
use nim_ffi.Tinycbor.Items.{Items, int, nil, cons}
use nim_ffi.Tinycbor.Model.Source.{item_reader}
use nim_ffi.Cbor.Values.{Cursor}
use nim_ffi.Cbor.Dec.{dec_i64, dec_u64, dec_i32, dec_i16, dec_i8, dec_u32, dec_u16, dec_u8}
use nim_ffi.Cbor.Narrow.{InBits, Narrowed, signed-fits, unsigned-fits}
use nim_ffi.Timer.Tests.Data.{empty_heap}

abbrev minus_200 : Cursor Items ℤ
minus_200 = record { it = cons (int (negsuc 199)) nil; out = pos 5; heap = empty_heap }

abbrev plus_70000 : Cursor Items ℕ
plus_70000 = record { it = cons (int (pos 70000)) nil; out = 5; heap = empty_heap }

signed-fits_example :
    let wide = dec_i64 ⦃c = item_reader⦄ (record minus_200 { out = pos 0 }) in
    Narrowed (InBits 31) (pos 5) wide (dec_i32 ⦃c = item_reader⦄ minus_200)
    × Narrowed (InBits 15) (pos 5) wide (dec_i16 ⦃c = item_reader⦄ minus_200)
    × Narrowed (InBits 7) (pos 5) wide (dec_i8 ⦃c = item_reader⦄ minus_200)
signed-fits_example = signed-fits item_reader minus_200

unsigned-fits_example :
    let wide = dec_u64 ⦃c = item_reader⦄ (record plus_70000 { out = 0 }) in
    Narrowed (λ n. n < 2 ^ 32) 5 wide (dec_u32 ⦃c = item_reader⦄ plus_70000)
    × Narrowed (λ n. n < 2 ^ 16) 5 wide (dec_u16 ⦃c = item_reader⦄ plus_70000)
    × Narrowed (λ n. n < 2 ^ 8) 5 wide (dec_u8 ⦃c = item_reader⦄ plus_70000)
unsigned-fits_example = unsigned-fits item_reader plus_70000
