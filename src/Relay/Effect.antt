-- ===== src/Relay/Effect.antt =====
-- src/dger/gen4_effect.py: one action for each method of `Gen4EffectMixin`. A method that calls a
-- peer has a second action, for what it does with the answer.
pub mod Ahc
pub mod Moh
pub mod Publish
