-- ===== src/Provider.antt =====
-- The contract of language-model providers, crates/core/src/provider.rs. A `u32` is a number below
-- 2 ^ 32 and a `u64` one below 2 ^ 64.
use wyrtloom.Base.{ℕ, String, Option, List, map, concat}
use wyrtloom.Db.{Result}

pub data MessageRole : Type 0 where
  system user assistant : MessageRole

pub record Message : Type 0 where
  pub role : MessageRole
  pub content : String

unfoldable pub system_message : String → Message
system_message content = record { role = system; content = content }

unfoldable pub user_message : String → Message
user_message content = record { role = user; content = content }

-- An `i64` is the number below 2 ^ 64 of its two's complement.
pub record Money : Type 0 where
  pub amount_microdollars : ℕ
  pub currency : String

pub record Usage : Type 0 where
  pub input_tokens : ℕ
  pub output_tokens : ℕ
  pub cost : Option Money

pub record GenerationRequest : Type 0 where
  pub messages : List Message
  pub max_output_tokens : ℕ
  pub model : String

pub data ContentBlock : Type 0 where
  text : String → ContentBlock

unfoldable pub as_text : ContentBlock → String
as_text (text s) = s

pub record GenerationResponse : Type 0 where
  pub content : List ContentBlock
  pub usage : Usage

unfoldable pub full_text : GenerationResponse → String
unfolding as_text
full_text r = concat (map as_text r.content)

pub data ProviderError : Type 0 where
  rate_limited unauthorized budget_exceeded : ProviderError
  transport provider_error : String → ProviderError

pub record ModelDescriptor : Type 0 where
  pub id : String
  pub description : Option String
  pub cost_per_input_token : Option Money
  pub cost_per_output_token : Option Money

-- The trait, of which `models` is not called; a state stands for what an implementation keeps, and for the service behind it.
pub record LlmProvider (S : Type 0) : Type 0 where
  pub generate : GenerationRequest → S → Result ProviderError GenerationResponse × S
