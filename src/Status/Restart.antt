-- ===== src/Status/Restart.antt =====
-- What a status handler of status/statusHandler.go finds again after a restart.
use elrond_eth_bridge.Common.{
  ◌≡◌, Bool, true, Option, none, some, ◌<◌, ◌^◌, List, [], ◌∷◌, ok, if◌then◌else◌,
}
use elrond_eth_bridge.Common.Bytes.{Bytes}
use elrond_eth_bridge.Common.Int.{ℤ, pos, negsuc}
use elrond_eth_bridge.Common.Utf8.{is_utf8}
use elrond_eth_bridge.Common.Maps.{lookup}
use elrond_eth_bridge.Status.{
  PersistenceData, Storer, StatusHandler, should_persist_metric, set_int_metric, add_int_metric,
  set_string_metric, try_load_persisted_data,
}

-- A number that an `int` holds.
abbrev pub FitsInt : ℤ → Type 0
FitsInt (pos n) = n < 2 ^ 63
FitsInt (negsuc n) = n < 2 ^ 63

-- An update of a metric.
pub data Update (Metric : Type 0) : Type 0 where
  set_int : Metric → ℤ → Update Metric
  add_int : Metric → ℤ → Update Metric
  set_string : Metric → Bytes → Update Metric

-- The numbers are those of an `int`, and the texts are valid UTF-8.
abbrev pub IsValid : {Metric : Type 0} → Update Metric → Type 0
IsValid (set_int metric value) = FitsInt value
IsValid (add_int metric delta) = FitsInt delta
IsValid (set_string metric val) = is_utf8 val ≡ true

module _ {Metric B W : Type 0} (same : Discrete Metric) (persisted : List Metric)
    (storer : Storer Metric B W) where
  -- All values of a map.
  abbrev pub AllValues : {V : Type 0} → (V → Type 0) → List (Metric × V) → Type 0
  AllValues P m = (metric : Metric) (value : _) → lookup same metric m ≡ some value → P value

  -- Data that JSON loses nothing of.
  abbrev pub IsStorable : PersistenceData Metric → Type 0
  IsStorable data_in =
      AllValues FitsInt data_in.int_metrics
      × AllValues (λ val. is_utf8 val ≡ true) data_in.string_metrics

  -- The same values under every name.
  abbrev pub SameMaps : {V : Type 0} → List (Metric × V) → List (Metric × V) → Type 0
  SameMaps m n = (metric : Metric) → lookup same metric m ≡ lookup same metric n

  -- The store returns what was put there last under a name; the JSON marshalizer reads only numbers
  -- that fit an `int` and texts that are valid UTF-8, and of such data returns maps with the same
  -- values. Neither fails.
  pub record IsFaithful : Type 0 where
    pub stored :
        (name : Bytes) (buff : B) (w : W)
        → storer.get name (storer.put_data name buff w).1 ≡ ok buff
    pub read_back :
        (data_in : PersistenceData Metric)
        → IsStorable data_in
        → (buff : B) × (storer.marshal data_in ≡ ok buff)
          × (data_out : PersistenceData Metric) × (storer.unmarshal buff ≡ ok data_out)
          × SameMaps data_out.int_metrics data_in.int_metrics
          × SameMaps data_out.string_metrics data_in.string_metrics
    pub reads_storable :
        (buff : B) (data_out : PersistenceData Metric)
        → storer.unmarshal buff ≡ ok data_out
        → IsStorable data_out

  unfoldable pub update : Update Metric → StatusHandler Metric W → StatusHandler Metric W
  update (set_int metric value) sh = (set_int_metric same persisted storer metric value sh).1
  update (add_int metric delta) sh = (add_int_metric same persisted storer metric delta sh).1
  update (set_string metric val) sh = (set_string_metric same persisted storer metric val sh).1

  unfoldable pub updates : List (Update Metric) → StatusHandler Metric W → StatusHandler Metric W
  updates [] sh = sh
  updates (u ∷ us) sh = updates us (update u sh)

  abbrev should : Metric → Bool
  should = should_persist_metric same persisted storer

  -- The values that are to be kept.
  abbrev pub kept : {V : Type 0} → List (Metric × V) → Metric → Option V
  kept m metric = if should metric then lookup same metric m else none

  -- What a new handler of that name has: the values that are to be kept, and no other.
  pub record IsKeptIn (sh fresh : StatusHandler Metric W) : Type 0 where
    pub ints : (metric : Metric) → lookup same metric fresh.int_metrics ≡ kept sh.int_metrics metric
    pub strings :
        (metric : Metric) → lookup same metric fresh.string_metrics ≡ kept sh.string_metrics metric

  abbrev emptied : StatusHandler Metric W → StatusHandler Metric W
  emptied sh = record sh { int_metrics = []; string_metrics = [] }

  -- What would be loaded from the store.
  abbrev reloaded : StatusHandler Metric W → StatusHandler Metric W
  reloaded sh = try_load_persisted_data same persisted storer (emptied sh)

  Reloads : StatusHandler Metric W → Type 0
  Reloads sh = IsKeptIn sh (reloaded sh)

  -- The metrics of a handler are storable.
  Storable : StatusHandler Metric W → Type 0
  Storable sh =
      IsStorable (record { int_metrics = sh.int_metrics; string_metrics = sh.string_metrics })

  -- The metrics of a handler are those that are to be kept, and no other.
  OnlyKept : StatusHandler Metric W → Type 0
  OnlyKept sh = IsKeptIn sh sh
