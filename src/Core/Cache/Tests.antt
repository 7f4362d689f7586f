-- ===== src/Core/Cache/Tests.antt =====
-- Keys of the tool-result cache at concrete inputs.
use agent_foundry.Prelude.{◌≡◌, refl}
use agent_foundry.Core.Cache.{codes, agent, scoped_input_hash}

agent_key :
    scoped_input_hash agent (codes "hello") (codes "bob") (codes "00ff")
    ≡ codes "agent:hello/bob:00ff"
unfolding scoped_input_hash
agent_key = refl
