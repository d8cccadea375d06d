-- ===== src/Tests/Agent.antt =====
-- An agent with two keys, of which the server accepts the second.
use cloudssh.Base.{◌==◌, ltb, [], if◌then◌else◌}
use cloudssh.Base.Int.{ℤ, pos, minus_one}
use cloudssh.Api.{Env, Trace, Call, bytes, agent_get_identity, agent_userauth}
use cloudssh.Programs.Agent.Identities.{given}

abbrev two_keys_reply : Trace → Call → ℤ
two_keys_reply t agent_get_identity = if ltb (given t) 2 then pos 0 else pos 1
two_keys_reply t (agent_userauth user) = if given t == 2 then pos 0 else minus_one
two_keys_reply t c = pos 0

abbrev two_keys : Env
two_keys = record {
  reply = two_keys_reply;
  accept = λ t s bs. minus_one;
  input = λ t s n. bytes [];
}
