-- ===== src/Schema/Block.antt =====
-- src/blocks/block.schema.ts and src/contacts/contact.schema.ts.
use chatwave_backend.Base.{ℕ}
use chatwave_backend.Base.Text.{Text}

pub record Block : Type 0 where
  pub blocker : ℕ
  pub blocked : ℕ

pub record Contact : Type 0 where
  pub owner : ℕ
  pub person : ℕ
  pub note : Text
