-- ===== src/Attitude.antt =====
-- engine/data/i_attitude_source.hpp and app/demo/demo_attitude_source.hpp: `AttitudeData`, and the source of
-- it that the demonstration uses.
use soteria.Prelude.{ℕ, Bool, true}
use soteria.Float.{Float, zero_f}

pub record AttitudeData (F : Type 0) : Type 0 where
  pub roll_deg : F
  pub pitch_deg : F
  pub heading_deg : F
  pub airspeed_kt : F
  pub altitude_ft : F
  pub valid : Bool

module _ {F : Type 0} ⦃fl : Float F⦄ where
  -- `kTwoPi`
  abbrev pub two_pi : F
  two_pi = fl.literal 628318530717958647692 20

  -- `DemoAttitudeSource::GetAttitude`, where `GetTickCount64` gives `ticks`; `of_u64` is the conversion of a
  -- `uint64_t`.
  unfoldable pub get_attitude : (of_u64 : ℕ → F) (ticks : ℕ) → AttitudeData F
  get_attitude of_u64 ticks =
      let t_sec = fl.mul (of_u64 ticks) (fl.literal 10 4) in
      record {
        roll_deg =
            fl.mul (fl.literal 250 1) (fl.sin (fl.div (fl.mul two_pi t_sec) (fl.literal 80 1)));
        pitch_deg =
            fl.mul (fl.literal 100 1) (fl.sin (fl.div (fl.mul two_pi t_sec) (fl.literal 60 1)));
        heading_deg = zero_f;
        airspeed_kt = fl.literal 1200 1;
        altitude_ft = fl.literal 35000 1;
        valid = true;
      }
