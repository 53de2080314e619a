-- ===== src/Status/Tests.antt =====
-- A status handler over a store of one buffer.
use elrond_eth_bridge.Common.{◌^◌, Option, none, some, List, [], ◌∷◌, ok, ltb, if◌then◌else◌}
use elrond_eth_bridge.Common.Bytes.{Bytes}
use elrond_eth_bridge.Common.Int.{ℤ, pos, negsuc}
use elrond_eth_bridge.Common.Utf8.{is_utf8}
use elrond_eth_bridge.Status.{values_of, PersistenceData, Storer, StatusHandler}
use elrond_eth_bridge.Status.Restart.{Update, add_int, set_string}

data Metric : Type 0 where
  num_batches last_error : Metric

abbrev persisted : List Metric
persisted = num_batches ∷ []

-- A value that JSON keeps, and what is read instead of another one.
abbrev kept_int : ℤ → ℤ
kept_int (pos n) = if ltb n (2 ^ 63) then pos n else pos 0
kept_int (negsuc n) = if ltb n (2 ^ 63) then negsuc n else pos 0

abbrev kept_text : Bytes → Bytes
kept_text text = if is_utf8 text then text else []

-- A store of one buffer, which has the data as they are.
abbrev storer : Storer Metric (PersistenceData Metric) (PersistenceData Metric)
storer = record {
  get = λ name w. ok w;
  put_data = λ name buff w. (ok tt, buff);
  marshal = λ d. ok d;
  unmarshal = λ buff. ok (record {
    int_metrics = values_of kept_int buff.int_metrics;
    string_metrics = values_of kept_text buff.string_metrics;
  });
}

abbrev changed : {V : Type 0} → (V → V) → Option V → Option V
changed f none = none
changed f (some v) = some (f v)

abbrev empty_store : PersistenceData Metric
empty_store = record { int_metrics = []; string_metrics = [] }

abbrev started : StatusHandler Metric (PersistenceData Metric)
started = record { int_metrics = []; string_metrics = []; name = 5 ∷ []; world = empty_store }

abbrev two_updates : List (Update Metric)
two_updates = add_int num_batches (pos 3) ∷ set_string last_error (1 ∷ []) ∷ []
