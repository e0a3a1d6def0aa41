-- ===== src/Tests/Satellites.antt =====
-- A table with one satellite that was measured once, and a ring alert of another.
use iridium_sniffer.Base.{ℕ, [], ◌∷◌, true, replicate, inl, ◌⊎◌, ◌≡◌, refl, arith}
use iridium_sniffer.Base.Int.{pos, negsuc}
use iridium_sniffer.Frame.{Ira}
use iridium_sniffer.Doppler.{State, SatBuffer, empty_sat, no_meas, doppler_pos_add_measurement}
use iridium_sniffer.Doppler.Estimate.{votes_for, estimate_channel_freq}
use iridium_sniffer.Doppler.Vote.{AreBeaten, channels_of, estimate_channel_freq-votes}
use iridium_sniffer.Doppler.Table.{IsTable}
use iridium_sniffer.Doppler.Keeps.{doppler_pos_add_measurement-IsTable}
use iridium_sniffer.Doppler.Counters.{doppler_pos_add_measurement-rejected}
use iridium_sniffer.Tests.{hertz}

abbrev pub overhead : ℕ → Ira hertz
overhead alt = record {
  sat_id = 9;
  beam_id = 3;
  lat = 50;
  lon = 8;
  alt = pos alt;
  pos_x = pos 1000;
  pos_y = pos 100;
  pos_z = negsuc 9;
  pages = [];
}

abbrev measured : SatBuffer hertz
measured = record (empty_sat hertz 7) {
  meas = record {
    cells =
        record {
          sat_ecef = record { x = 4_000_000; y = 0; z = 0 };
          freq = 1_622_000_000;
          timestamp = 5;
          valid = true;
        }
        ∷ replicate 199 (no_meas hertz);
    head = 1;
    count = 1;
  };
}

abbrev pub state : State hertz
state = record {
  satellites = measured ∷ [];
  dbg_total = 1;
  dbg_sat0 = 0;
  dbg_coord = 0;
  dbg_radius = 0;
  dbg_ok = 1;
  dbg_vel_rej = 0;
}

pub state-IsTable : IsTable hertz (measured ∷ [])
state-IsTable = record {
  room = omega arith;
  buffers = (
    record {
      cells = refl;
      filled = record { room = omega arith; filling = inl (refl, omega arith) };
    },
    tt,
    tt,
  );
}

doppler_pos_add_measurement-IsTable_example :
    IsTable hertz
      (doppler_pos_add_measurement hertz state (overhead 780) 1_622_000_000 9).satellites
doppler_pos_add_measurement-IsTable_example =
    doppler_pos_add_measurement-IsTable hertz state (overhead 780) 1_622_000_000 9 state-IsTable

doppler_pos_add_measurement-rejected_example :
    let st' = doppler_pos_add_measurement hertz state (overhead 780) 1_622_000_000 9 in
    (st'.dbg_ok ≡ 2)
    ⊎ ((st'.satellites ≡ measured ∷ [])
        × (st'.dbg_ok ≡ 1)
        × ((st'.dbg_sat0 ≡ 1)
            ⊎ ((st'.dbg_coord ≡ 1) ⊎ ((st'.dbg_radius ≡ 1) ⊎ (st'.dbg_vel_rej ≡ 1)))))
doppler_pos_add_measurement-rejected_example =
    doppler_pos_add_measurement-rejected hertz state (overhead 780) 1_622_000_000 9

estimate_channel_freq-votes_example :
    AreBeaten hertz
      (channels_of hertz measured 9)
      (votes_for hertz (estimate_channel_freq hertz measured 9) (channels_of hertz measured 9))
      (channels_of hertz measured 9)
    ⊎ AreBeaten hertz (channels_of hertz measured 9) 0 (channels_of hertz measured 9)
estimate_channel_freq-votes_example = estimate_channel_freq-votes hertz measured 9
