-- ===== src/Status.antt =====
-- status/statusHandler.go, status/persistence.go and status/metricsHolder.go: the metrics of a
-- component, some of which are kept in a store. The names of metrics are a type with a decidable
-- equality, and `persisted` stands for `PersistedMetrics` of core/constants.go.
pub mod Restart
mod Tests
use elrond_eth_bridge.Common.{
  ℕ, ◌+◌, ◌-◌, ◌%◌, ◌^◌, Bool, true, false, Option, none, some, List, [], ◌∷◌, map, Result, ok, err,
  if◌then◌else◌, empty_name, status_handler_exists, missing_status_handler,
}
use elrond_eth_bridge.Common.Bytes.{Bytes, bytes_equal}
use elrond_eth_bridge.Common.Int.{ℤ, pos, negsuc, int64, ◌+ℤ◌}
use elrond_eth_bridge.Common.Maps.{lookup, put, put_each}
use elrond_eth_bridge.Common.State.{State, give, ◌>>=◌, ◌>>◌}
use elrond_eth_bridge.Relayers.{insert}

-- `int(n)` of a sum: a 64-bit number.
unfoldable pub wrap_int : ℤ → ℤ
wrap_int (pos n) = int64 n
wrap_int (negsuc n) = int64 (2 ^ 64 - 1 - n % 2 ^ 64)

-- `statusHandlerPersistenceData`
pub record PersistenceData (Metric : Type 0) : Type 0 where
  pub int_metrics : List (Metric × ℤ)
  pub string_metrics : List (Metric × Bytes)

-- The store, whose state is `W`, and the JSON marshalizer, into a type of buffers.
pub record Storer (Metric B W : Type 0) : Type 0 where
  pub get : Bytes → W → Result B
  pub put_data : Bytes → B → W → Result (Unit {0}) × W
  pub marshal : PersistenceData Metric → Result B
  pub unmarshal : B → Result (PersistenceData Metric)

-- `statusHandler`, with the state of its store.
pub record StatusHandler (Metric W : Type 0) : Type 0 where
  pub int_metrics : List (Metric × ℤ)
  pub string_metrics : List (Metric × Bytes)
  pub name : Bytes
  pub world : W

-- A value of a general metric.
pub data MetricValue : Type 0 where
  int_value : ℤ → MetricValue
  string_value : Bytes → MetricValue

abbrev pub values_of : {K A B : Type 0} → (A → B) → List (K × A) → List (K × B)
values_of f = map λ entry. (entry.0, f entry.1)

abbrev pub or_zero : Option ℤ → ℤ
or_zero none = pos 0
or_zero (some value) = value

module _ {Metric B W : Type 0} (same : Discrete Metric) (persisted : List Metric)
    (storer : Storer Metric B W) where
  -- `shouldPersistMetric`
  unfoldable pub should_persist_from : List Metric → Metric → Bool
  should_persist_from [] metric = false
  should_persist_from (persisted_metric ∷ rest) metric =
      let later = should_persist_from rest metric in
      elim (same persisted_metric metric) [ yes _ ↦ true | no _ ↦ later ]

  unfoldable pub should_persist_metric : Metric → Bool
  unfolding should_persist_from
  should_persist_metric metric = should_persist_from persisted metric

  -- `neededData`, in both directions.
  unfoldable pub needed_data : PersistenceData Metric → PersistenceData Metric
  needed_data persistence = record {
    int_metrics = put_each same should_persist_metric persistence.int_metrics [];
    string_metrics = put_each same should_persist_metric persistence.string_metrics [];
  }

  -- `loadFromBuff`
  unfoldable pub load_from_buff : B → Result (PersistenceData Metric)
  load_from_buff buff = elim (storer.unmarshal buff) [
    | err e ↦ err e
    | ok persistence ↦ ok (needed_data persistence)
  ]

  -- `convertToBuff`
  unfoldable pub convert_to_buff : PersistenceData Metric → Result B
  convert_to_buff persistence = storer.marshal (needed_data persistence)

  -- `persistChanges`; errors are only logged.
  unfoldable pub persist_changes : Metric → State (StatusHandler Metric W) (Unit {0})
  persist_changes metric sh = elim (should_persist_metric metric) [
    | false ↦ (tt, sh)
    | true ↦
        elim (convert_to_buff
          (record { int_metrics = sh.int_metrics; string_metrics = sh.string_metrics })) [
            | err _ ↦ (tt, sh)
            | ok buff ↦ (tt, record sh { world = (storer.put_data sh.name buff sh.world).1 })
          ]
  ]

  -- `SetIntMetric`, `AddIntMetric`, `SetStringMetric`
  unfoldable pub set_int_metric : Metric → ℤ → State (StatusHandler Metric W) (Unit {0})
  set_int_metric metric value sh =
      persist_changes metric (record sh { int_metrics = put same metric value sh.int_metrics })

  unfoldable pub add_int_metric : Metric → ℤ → State (StatusHandler Metric W) (Unit {0})
  add_int_metric metric delta sh = persist_changes metric (record sh {
    int_metrics =
        put same metric (wrap_int (or_zero (lookup same metric sh.int_metrics) +ℤ delta))
          sh.int_metrics;
  })

  unfoldable pub set_string_metric : Metric → Bytes → State (StatusHandler Metric W) (Unit {0})
  set_string_metric metric val sh =
      persist_changes metric (record sh { string_metrics = put same metric val sh.string_metrics })

  -- `GetStringMetrics`, `GetIntMetrics`: copies.
  unfoldable pub get_string_metrics : StatusHandler Metric W → List (Metric × Bytes)
  get_string_metrics sh = put_each same (λ _. true) sh.string_metrics []

  unfoldable pub get_int_metrics : StatusHandler Metric W → List (Metric × ℤ)
  get_int_metrics sh = put_each same (λ _. true) sh.int_metrics []

  -- `GetAllMetrics`: the text of a metric comes in the place of its number.
  unfoldable pub get_all_metrics : StatusHandler Metric W → List (Metric × MetricValue)
  get_all_metrics sh =
      put_each same (λ _. true) (values_of string_value sh.string_metrics)
        (put_each same (λ _. true) (values_of int_value sh.int_metrics) [])

  -- `tryLoadPersistedData`; errors are only logged.
  unfoldable pub try_load_persisted_data : StatusHandler Metric W → StatusHandler Metric W
  try_load_persisted_data sh = elim (storer.get sh.name sh.world) [
    | err _ ↦ sh
    | ok buff ↦ elim (load_from_buff buff) [
      | err _ ↦ sh
      | ok persistence ↦ record sh {
        int_metrics = put_each same (λ _. true) persistence.int_metrics sh.int_metrics;
        string_metrics = put_each same (λ _. true) persistence.string_metrics sh.string_metrics;
      }
    ]
  ]

  -- `NewStatusHandler`, with a storer that is not nil.
  unfoldable pub new_status_handler : Bytes → W → Result (StatusHandler Metric W)
  new_status_handler [] world = err empty_name
  new_status_handler (b ∷ name) world = ok (
      try_load_persisted_data
        (record { int_metrics = []; string_metrics = []; name = b ∷ name; world = world }))

-- `metricsHolder`: its status handlers by their names, whatever they are.
module _ {H : Type 0} (name_of : H → Bytes) where
  unfoldable pub find_handler : Bytes → List (Bytes × H) → Option H
  find_handler name [] = none
  find_handler name ((n, sh) ∷ handlers) =
      let rest = find_handler name handlers in if bytes_equal n name then some sh else rest

  -- `AddStatusHandler`
  unfoldable pub add_status_handler : H → State (List (Bytes × H)) (Result (Unit {0}))
  add_status_handler sh handlers = elim (find_handler (name_of sh) handlers) [
    | some _ ↦ (err status_handler_exists, handlers)
    | none ↦ (ok tt, (name_of sh, sh) ∷ handlers)
  ]

  -- `GetAvailableStatusHandlers`, sorted by the bytes of the names.
  unfoldable pub get_available_status_handlers : List (Bytes × H) → List Bytes
  get_available_status_handlers [] = []
  get_available_status_handlers ((name, _) ∷ handlers) =
      insert name (get_available_status_handlers handlers)

  -- `GetAllMetrics` of the holder, by what the handler returns.
  unfoldable pub get_all_metrics_of : {M : Type 0} → (H → M) → Bytes → List (Bytes × H) → Result M
  get_all_metrics_of metrics name handlers = elim (find_handler name handlers) [
    | none ↦ err missing_status_handler
    | some sh ↦ ok (metrics sh)
  ]
