-- ===== src/Service/Handle/Dispatch/Commits.antt =====
-- What is committed for an event that was received.
use go_m_layer.Prelude.{str_has_eq}
use go_m_layer.External.{External}
use go_m_layer.DataStates.{DataStates}
use go_m_layer.Service.Env.{Env}
use go_m_layer.Service.Handle.Common.Keep.{Commits}
