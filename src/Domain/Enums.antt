-- ===== src/Domain/Enums.antt =====
-- src/domain/value_objects/enums.py. A child module per enumeration: `value` is the text of a
-- member, `of_value` the call `Currency(text)`, which finds no member for any other text.
pub mod CurrencyEnum
pub mod AccountStatusEnum
pub mod KycStatusEnum
pub mod TransactionStatusEnum
pub mod TransactionTypeEnum
