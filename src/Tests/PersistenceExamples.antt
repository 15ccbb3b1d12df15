-- ===== src/Tests/PersistenceExamples.antt =====
-- The theorems about the database, at a small snapshot.
use preload_ng.Prelude.{
  ℕ, ◌≡◌, refl, ap, ◌≢◌, ◌⊎◌, if_neg, true, false, Option, none, some, [], ◌∷◌, ◌++◌, arith, ◌==◌,
}
use mathlib.Core.List.Permᴰ
use preload_ng.Error.{Outcome, ok, err, rkyv_deserialize}
use preload_ng.Stores.MarkovGraph.{Array4}
use preload_ng.Engine.Snapshot.{StoresSnapshot}
use preload_ng.Persistence.Tables.{Bytes, Bytes-discrete, Tables, Sqlx, SqlxLaws, MarkovRow}
use preload_ng.Persistence.Rows.{
  Codec, CodecLaws, markov_row, text_of, exe_row, map_row, exe_map_row,
}
use preload_ng.Prelude.Int.{pos, low_bits, wrap_i64}
use preload_ng.Prelude.HashMap.{member}
use preload_ng.Persistence.Repo.{save_snapshot, load_snapshot}
use preload_ng.Persistence.Storable.{IsStorable}
use preload_ng.Persistence.Atomic
use preload_ng.Persistence.Atomic.{HasRows}
use preload_ng.Persistence.RoundTrip
use preload_ng.Persistence.RoundTrip.{IsSameSnapshot}
use preload_ng.Tests.Instances.{millionths}
use preload_ng.Tests.Samples.{path_a, path_b}

abbrev bytes4 : Array4 ℕ → Bytes
bytes4 x = x.at0 ∷ x.at1 ∷ x.at2 ∷ x.at3 ∷ []

abbrev array4 : Bytes → Outcome (Array4 ℕ)
array4 (a ∷ b ∷ c ∷ d ∷ []) = ok (record { at0 = a; at1 = b; at2 = c; at3 = d })
array4 _ = err (rkyv_deserialize [])

abbrev array16 : Bytes → Outcome (Array4 (Array4 ℕ))
array16 (a0 ∷ a1 ∷ a2 ∷ a3 ∷ b0 ∷ b1 ∷ b2 ∷ b3 ∷ c0 ∷ c1 ∷ c2 ∷ c3 ∷ d0 ∷ d1 ∷ d2 ∷ d3 ∷ []) =
    ok (record {
      at0 = record { at0 = a0; at1 = a1; at2 = a2; at3 = a3 };
      at1 = record { at0 = b0; at1 = b1; at2 = b2; at3 = b3 };
      at2 = record { at0 = c0; at1 = c1; at2 = c2; at3 = c3 };
      at3 = record { at0 = d0; at1 = d1; at2 = d2; at3 = d3 };
    })
array16 _ = err (rkyv_deserialize [])

abbrev parsed : Bytes → Option ℕ
parsed (n ∷ []) = some n
parsed _ = none

-- A number is one byte of the text, an array the list of its numbers.
abbrev codec : Codec millionths
codec = record {
  F64 = ℕ;
  to_f64 = λ x. x;
  of_f64 = λ x. x;
  lossy = λ b. b;
  print_u64 = λ n. n ∷ [];
  parse_u64 = parsed;
  to_bytes4 = λ x. ok (bytes4 x);
  from_bytes4 = array4;
  to_bytes16 = λ x. ok (bytes4 x.at0 ++ bytes4 x.at1 ++ bytes4 x.at2 ++ bytes4 x.at3);
  from_bytes16 = array16;
}

value_of : {A : Type 0} {a b : A} → ok a ≡ ok b → b ≡ a
value_of h = cc

codec-CodecLaws : CodecLaws codec
codec-CodecLaws = record {
  of_f64-to_f64 = λ x. refl;
  parse-print = λ n h. refl;
  from-to_bytes4 = λ x b h. rw (value_of h) refl;
  from-to_bytes16 = λ x b h. rw (value_of h) refl;
}

abbrev sqlite : Sqlx
sqlite = record { fails = λ n. false; select_order = λ A rows. rows }

sqlite-SqlxLaws : SqlxLaws sqlite
sqlite-SqlxLaws = record { select-perm = λ A rows. Permᴰ.refl rows }

abbrev zeros : Array4 ℕ
zeros = record { at0 = 0; at1 = 0; at2 = 0; at3 = 0 }

abbrev saved : StoresSnapshot millionths
saved = record {
  meta = record {
    schema_version = 1;
    app_version = none;
    created_at = some 1_700_000_000_123_456_789;
  };
  state = record {
    model_time = 9;
    last_accounting_time = 9;
    exes =
        record { path = path_a; total_running_time = 3; last_seen_time = some 8 }
        ∷ record {
          path = path_b;
          total_running_time = 18_446_744_073_709_551_615;
          last_seen_time = none;
        }
        ∷ [];
    maps = record { path = path_a; offset = 0; length = 2048; update_time = 0 } ∷ [];
    exe_maps =
        record {
          exe_path = path_a;
          map_key = record { path = path_a; offset = 0; length = 2048 };
          prob = millionths.one;
        }
        ∷ [];
    markov_edges =
        record {
          exe_a = path_a;
          exe_b = path_b;
          time_to_leave = zeros;
          transition_prob = record { at0 = zeros; at1 = zeros; at2 = zeros; at3 = zeros };
          both_running_time = 2;
        }
        ∷ [];
  };
}

abbrev edge_row : MarkovRow
edge_row = record {
  key = record { exe_a = 47 ∷ 97 ∷ []; exe_b = 47 ∷ 98 ∷ [] };
  time_to_leave = bytes4 zeros;
  transition_prob = bytes4 zeros ++ bytes4 zeros ++ bytes4 zeros ++ bytes4 zeros;
  both_running_time = pos 2;
}

abbrev second : Bytes → ℕ
second (a ∷ b ∷ _) = b
second _ = 0

distinct : ¬ (◌≡◌ {A = ℕ} 98 97)
distinct = omega arith

saved-IsStorable : IsStorable codec saved
unfolding markov_row text_of exe_row map_row exe_map_row low_bits wrap_i64 member
saved-IsStorable = record {
  meta-IsMetaStorable = record { schema_version-lt = omega arith; created_at-lt = omega arith };
  model_time-lt = omega arith;
  last_accounting_time-lt = omega arith;
  exes-IsExeStorable = (
    record {
      path-IsText = (_, refl);
      total_running_time-lt = omega arith;
      last_seen_time-lt = omega arith;
    },
    (
      record {
        path-IsText = (_, refl);
        total_running_time-lt = omega arith;
        last_seen_time-lt = tt;
      },
      tt,
    ),
  );
  maps-IsMapStorable = (
    record {
      path-IsText = (_, refl);
      offset-lt = omega arith;
      length-lt = omega arith;
      update_time-lt = omega arith;
    },
    tt,
  );
  exe_maps-IsExeMapStorable = (
    record {
      exe_path-IsText = (_, refl);
      path-IsText = (_, refl);
      offset-lt = omega arith;
      length-lt = omega arith;
    },
    tt,
  );
  markov_edges-IsMarkovStorable = (
    record {
      exe_a-IsText = (_, refl);
      exe_b-IsText = (_, refl);
      both_running_time-lt = omega arith;
    },
    tt,
  );
  markov_rows = edge_row ∷ [];
  rows-Each = (refl, tt);
  exes-NoRepeat = (
    if_neg (Bytes-discrete (47 ∷ 98 ∷ []) (47 ∷ 97 ∷ [])) (λ e. distinct (ap second e)) true false,
    (refl, tt),
  );
  maps-NoRepeat = (refl, tt);
  exe_maps-NoRepeat = (refl, tt);
  markov_rows-NoRepeat = (refl, tt);
}

abbrev empty_tables : Tables ℕ
empty_tables = record { state = none; exes = []; maps = []; exe_maps = []; markovs = [] }

load_snapshot-save_snapshot_example :
    ((save_snapshot codec sqlite saved empty_tables).0 ≡ ok tt)
    × (got : StoresSnapshot millionths) × (load_snapshot codec sqlite
          (save_snapshot codec sqlite saved empty_tables).1
        ≡ ok got)
    × IsSameSnapshot got saved
load_snapshot-save_snapshot_example =
    RoundTrip.load_snapshot-save_snapshot codec sqlite (λ n. refl) sqlite-SqlxLaws codec-CodecLaws
      saved saved-IsStorable empty_tables

-- The disk is full at the ninth statement.
abbrev full_disk : Sqlx
full_disk = record { fails = λ n. n == 8; select_order = λ A rows. rows }

save_snapshot-all_or_nothing_example :
    (((save_snapshot codec full_disk saved empty_tables).0 ≡ ok tt)
      × HasRows codec saved (save_snapshot codec full_disk saved empty_tables).1)
    ⊎ (((save_snapshot codec full_disk saved empty_tables).0 ≢ ok tt)
        × ((save_snapshot codec full_disk saved empty_tables).1 ≡ empty_tables))
save_snapshot-all_or_nothing_example =
    Atomic.save_snapshot-all_or_nothing codec full_disk saved empty_tables
