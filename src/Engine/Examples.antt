-- ===== src/Engine/Examples.antt =====
-- A message that expires once and is then delivered.
use ton_eth_bridge_relay.Base.{ℕ, ◌≡◌, ◌↔◌, true, List, [], ◌∷◌, ok}
use ton_eth_bridge_relay.Messages.{MessageStatus, delivered, expired, init}
use ton_eth_bridge_relay.Engine.{Attempt, done, deliver_message, Delivered, deliver_message_iff}

abbrev try : ℕ → MessageStatus → Attempt
try hash status = record {
  condition = true;
  sign = ok (record { account = 1; message_hash = hash; expire_at = hash; destination = ok tt });
  broadcast = ok tt;
  others = λ s. s;
  answer = ok status;
}

abbrev attempts : List Attempt
attempts = try 5 expired ∷ try 6 delivered ∷ try 7 delivered ∷ []

deliver_message_iff_example : ((deliver_message attempts init).1 ≡ done) ↔ Delivered attempts init
deliver_message_iff_example = deliver_message_iff attempts init
