-- ===== src/Bare/Events.antt =====
-- becky-engine/src/lib.rs and the wora crate: the events of an engine.
-- `becky_engine::EngineEvent`; what an application adds is not read.
pub data EngineEvent : Type 0 where
  app fx_start fx_update fx_stop fx_delete rescan : EngineEvent

-- `wora::ControlEvent` and `wora::Event`, by their variants.
pub data ControlEvent : Type 0 where
  reload_configuration suspend shutdown log_rotation : ControlEvent

pub data Event : Type 0 where
  system_resource cpu_threshold load_threshold memory_threshold : Event
  config_changed secret_changed leadership_changed : Event
  app : EngineEvent → Event
  control : ControlEvent → Event
