-- ===== src/Timer/Tests/Trips.antt =====
-- The values through the buffers of `nimffi_encode_to_buf` and `nimffi_decode_from_buf`.
use nim_ffi.Base.{ℕ, ◌+◌, ◌^◌, ◌≤◌, ◌<◌, ◌≡◌, refl, inl, true, false, arith}
use nim_ffi.Tinycbor.{no_error}
use nim_ffi.Tinycbor.Model.{Sink, sink}
use nim_ffi.Tinycbor.Model.Source.{item_reader}
use nim_ffi.Tinycbor.Model.Lawful.{sink_Writes, item_Reads, model_Parses}
use nim_ffi.Cbor.Values.{Encoder}
use nim_ffi.Cbor.Dec.{size_max}
use nim_ffi.Cbor.Buf.{encode_to_buf}
use nim_ffi.Cbor.Encoding.{Kept, encode_to_buf-Kept}
use nim_ffi.Cbor.Written.{Written, encode_to_buf-Written}
use nim_ffi.Cbor.Trip.{Carried, Wants}
use nim_ffi.Timer.Types.{no_my_timer_complex_req, no_my_timer_schedule_req}
use nim_ffi.Timer.Enc.{enc_my_timer_complex_req, enc_my_timer_schedule_req}
use nim_ffi.Timer.Dec.{dec_my_timer_complex_req, dec_my_timer_schedule_req}
use nim_ffi.Timer.Items.{item_my_timer_complex_req, item_my_timer_schedule_req}
use nim_ffi.Timer.RoundTrip.Trips.{my_timer_complex_req-trip, my_timer_schedule_req-trip}
use nim_ffi.Timer.Tests.Encodes.{complex_req-runs, schedule_req-runs}
use nim_ffi.Timer.Tests.Data.{roomy, empty_heap, tight_heap, complex_req, schedule_req}

small : 400 + 400 ≤ 2 ^ 64
small = omega arith

short : 5 < size_max
short = omega arith

wants :
    (enc : Encoder Sink)
    → ((room : ℕ) → (enc (roomy.encoder_init room)).0 ≡ no_error)
    → Wants ⦃w = roomy⦄ enc 400
unfolding roomy sink
wants enc runs = record {
  small = small;
  fine = λ room. inl (runs room);
  fits = λ room enough e. cc (e, runs room);
  hint = λ room. omega arith;
}

encode_to_buf-Kept_example :
    Kept ⦃w = roomy⦄ (enc_my_timer_schedule_req ⦃w = roomy⦄ schedule_req) tight_heap (
      encode_to_buf ⦃w = roomy⦄ 401 true
        (enc_my_timer_schedule_req ⦃w = roomy⦄ schedule_req)
        tight_heap)
unfolding roomy sink
encode_to_buf-Kept_example =
    encode_to_buf-Kept ⦃w = roomy⦄ (enc_my_timer_schedule_req ⦃w = roomy⦄ schedule_req) true
      tight_heap 400 small (λ room enough e. cc (e, schedule_req-runs room)) (λ room. omega arith)
      401 (omega arith)

encode_to_buf-Written_example :
    Written ⦃w = roomy⦄ (enc_my_timer_complex_req ⦃w = roomy⦄ complex_req) (
      encode_to_buf ⦃w = roomy⦄ 401 true
        (enc_my_timer_complex_req ⦃w = roomy⦄ complex_req)
        empty_heap)
unfolding roomy sink
encode_to_buf-Written_example =
    encode_to_buf-Written ⦃w = roomy⦄ (enc_my_timer_complex_req ⦃w = roomy⦄ complex_req) true 400
      small (λ room. inl (complex_req-runs room)) (λ room enough e. cc (e, complex_req-runs room))
      (λ room. omega arith) 401 empty_heap (omega arith) (λ n. refl)

my_timer_complex_req-trip_example :
    Carried ⦃c = item_reader⦄ item_my_timer_complex_req
      (item_my_timer_complex_req complex_req)
      no_my_timer_complex_req
      (dec_my_timer_complex_req ⦃c = item_reader⦄)
      empty_heap
      (encode_to_buf ⦃w = roomy⦄ 401 false
        (enc_my_timer_complex_req ⦃w = roomy⦄ complex_req)
        empty_heap)
unfolding roomy
my_timer_complex_req-trip_example =
    my_timer_complex_req-trip roomy item_reader (sink_Writes _) item_Reads 400 401 (omega arith)
      false empty_heap (λ n. refl) empty_heap (λ n. refl) complex_req
      (((short, omega arith), tt), (short, (short, tt)), short, tt) (model_Parses _ _)
      (wants _ complex_req-runs)

my_timer_schedule_req-trip_example :
    Carried ⦃c = item_reader⦄ item_my_timer_schedule_req
      (item_my_timer_schedule_req schedule_req)
      no_my_timer_schedule_req
      (dec_my_timer_schedule_req ⦃c = item_reader⦄)
      empty_heap
      (encode_to_buf ⦃w = roomy⦄ 401 false
        (enc_my_timer_schedule_req ⦃w = roomy⦄ schedule_req)
        empty_heap)
unfolding roomy
my_timer_schedule_req-trip_example =
    my_timer_schedule_req-trip roomy item_reader (sink_Writes _) item_Reads 400 401 (omega arith)
      false empty_heap (λ n. refl) empty_heap (λ n. refl) schedule_req
      (
        (short, (short, tt), omega arith),
        (omega arith, omega arith, tt),
        (omega arith, omega arith, omega arith),
      )
      (model_Parses _ _) (wants _ schedule_req-runs)
