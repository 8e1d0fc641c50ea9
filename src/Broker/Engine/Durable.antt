-- ===== src/Broker/Engine/Durable.antt =====
-- `authorize` on a file store: the answer from the store on disk, and what is on disk after it.
use ai_security_gateway.Base.Dict
use ai_security_gateway.Base.Dict.{Dict}
use ai_security_gateway.Broker.Store.{Store}
use ai_security_gateway.Broker.World.{World}
use ai_security_gateway.Broker.Issue.{Broker}
