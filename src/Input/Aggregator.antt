-- ===== src/Input/Aggregator.antt =====
-- internal/input/event_aggregator.go: movements that are collected and sent at intervals, and
-- filters. A filter keeps its own state; the aggregator passes an event through all of them.
use waymon.Common.{
  ℕ, ◌+◌, ◌*◌, ◌==◌, String, Bool, true, false, not, ◌&&◌, ◌||◌, Option, none, some, List, [], ◌∷◌,
  ◌++◌, length, if◌then◌else◌, ltb,
}
use waymon.Common.Assoc.{lookup, insert}
use waymon.Float.{Float64}
use waymon.Proto.{Event, InputEvent, mouse_move, mouse_button, mouse_scroll, keyboard}

-- `getEventTypeName`
unfoldable pub get_event_type_name : {V : Type 0} → InputEvent V → String
get_event_type_name event = elim event.event [
  | mouse_move dx dy ↦ "mouse_move"
  | mouse_button b p ↦ "mouse_button"
  | mouse_scroll dx dy ↦ "mouse_scroll"
  | keyboard k p ↦ "keyboard"
  | _ ↦ "unknown"
]

-- `RateLimitFilter`
pub record RateLimitFilter : Type 0 where
  pub min_interval : ℕ
  pub event_type_last : List (String × ℕ)

unfoldable pub new_rate_limit_filter : ℕ → RateLimitFilter
new_rate_limit_filter interval = record { min_interval = interval; event_type_last = [] }

-- Whether an event at `now` comes too early after the last one of its type.
abbrev pub is_early : ℕ → ℕ → Option ℕ → Bool
is_early now interval none = false
is_early now interval (some last) = ltb now (last + interval)

-- `ProcessEvent`; whether the event passes.
unfoldable pub rate_limit :
    {V : Type 0} → ℕ → InputEvent V → RateLimitFilter → RateLimitFilter × Bool
rate_limit now event rl =
    let type = get_event_type_name event in
    if is_early now rl.min_interval (lookup type rl.event_type_last)
    then (rl, false)
    else (record rl { event_type_last = insert type now rl.event_type_last }, true)

module _ (F : Float64) where
  open F use {Value}

  -- `abs`; a negative value is subtracted from zero.
  abbrev pub abs : Value → Value
  abs x = if F.ltb x F.zero then F.sub F.zero x else x

  abbrev pub is_small : Value → Value → Bool
  is_small dx dy = F.ltb (abs dx) F.one && F.ltb (abs dy) F.one

  abbrev pub same_bool : Bool → Bool → Bool
  same_bool true b = b
  same_bool false b = not b

  unfoldable pub events_similar : Event Value → Event Value → Bool
  events_similar (mouse_move dx dy) (mouse_move ex ey) = is_small dx dy && is_small ex ey
  events_similar (mouse_button b p) (mouse_button c q) = b == c && same_bool p q
  events_similar (keyboard k p) (keyboard l q) = k == l && same_bool p q
  events_similar _ _ = false

  -- `DeduplicationFilter`, with the last event and its time.
  abbrev pub DeduplicationFilter : Type 0
  DeduplicationFilter = Option (InputEvent Value × ℕ)

  abbrev pub is_duplicate : ℕ → InputEvent Value → DeduplicationFilter → Bool
  is_duplicate now event none = false
  is_duplicate now event (some (last, time)) =
      events_similar last.event event.event && ltb now (time + 5 * 1_000_000)

  unfoldable pub deduplicate :
      ℕ → InputEvent Value → DeduplicationFilter → DeduplicationFilter × Bool
  deduplicate now event df =
      if is_duplicate now event df then (df, false) else (some (event, now), true)

  -- `EventFilter`: the two of this file; another implementation is not in the program.
  pub data Filter : Type 0 where
    deduplication : DeduplicationFilter → Filter
    rate_limiting : RateLimitFilter → Filter

  abbrev pub process_by : ℕ → InputEvent Value → Filter → Filter × Bool
  process_by now event (deduplication df) =
      let (after, passes) = deduplicate now event df in (deduplication after, passes)
  process_by now event (rate_limiting rl) =
      let (after, passes) = rate_limit now event rl in (rate_limiting after, passes)

  -- The loop over the filters, up to the first that holds the event back.
  unfoldable pub process_filters : ℕ → InputEvent Value → List Filter → List Filter × Bool
  process_filters now event [] = ([], true)
  process_filters now event (f ∷ fs) =
      let (after, passes) = process_by now event f in
      let (rest, result) = process_filters now event fs in
      if passes then (after ∷ rest, result) else (after ∷ fs, false)

  pub record EventAggregator : Type 0 where
    pub event_chan : List (InputEvent Value)  -- the oldest first
    pub filtered_chan : List (InputEvent Value)
    pub mouse_sensitivity : Value
    pub scroll_speed : Value
    pub enable_keyboard : Bool
    pub delta_x : Value
    pub delta_y : Value
    pub event_filters : List Filter

  unfoldable pub new_event_aggregator : EventAggregator
  new_event_aggregator = record {
    event_chan = [];
    filtered_chan = [];
    mouse_sensitivity = F.one;
    scroll_speed = F.one;
    enable_keyboard = true;
    delta_x = F.zero;
    delta_y = F.zero;
    event_filters = [];
  }

  unfoldable pub set_config : Value → Value → Bool → EventAggregator → EventAggregator
  set_config sensitivity speed keys ea = record ea {
    mouse_sensitivity = sensitivity;
    scroll_speed = speed;
    enable_keyboard = keys;
  }

  unfoldable pub add_event_filter : Filter → EventAggregator → EventAggregator
  add_event_filter f ea = record ea { event_filters = ea.event_filters ++ (f ∷ []) }

  unfoldable pub accumulate : Value → Value → EventAggregator → EventAggregator
  accumulate dx dy ea = record ea {
    delta_x = F.add ea.delta_x (F.mul dx ea.mouse_sensitivity);
    delta_y = F.add ea.delta_y (F.mul dy ea.mouse_sensitivity);
  }

  -- A send to `filteredChan`, which drops the event where the channel is full.
  unfoldable pub send_filtered : InputEvent Value → EventAggregator → EventAggregator
  send_filtered event ea =
      if ltb (length ea.filtered_chan) 500
      then record ea { filtered_chan = ea.filtered_chan ++ (event ∷ []) }
      else ea

  -- The filters on an event; what passes is sent.
  abbrev pub filter_event : ℕ → InputEvent Value → EventAggregator → EventAggregator
  filter_event now event ea =
      let (filters, passes) = process_filters now event ea.event_filters in
      let filtered = record ea { event_filters = filters } in
      if passes then send_filtered event filtered else filtered

  -- A turn of `processEvents`: `processEvent`, and the send of its result.
  unfoldable pub process_event : ℕ → InputEvent Value → EventAggregator → EventAggregator
  process_event now event ea = elim event.event [
    | mouse_move dx dy ↦ accumulate dx dy ea
    | mouse_scroll dx dy ↦
        filter_event now
          (record event {
            event = mouse_scroll (F.mul dx ea.scroll_speed) (F.mul dy ea.scroll_speed);
          })
          ea
    | keyboard k p ↦ if ea.enable_keyboard then filter_event now event ea else ea
    | _ ↦ filter_event now event ea
  ]

  -- A tick of `flushMouseMovements`.
  unfoldable pub flush_mouse_movements : ℕ → EventAggregator → EventAggregator
  flush_mouse_movements now ea =
      if not (F.eqb ea.delta_x F.zero) || not (F.eqb ea.delta_y F.zero)
      then send_filtered
          (record {
            event = mouse_move ea.delta_x ea.delta_y;
            timestamp = now;
            source_id = "event-aggregator";
          })
          (record ea { delta_x = F.zero; delta_y = F.zero })
      else ea
