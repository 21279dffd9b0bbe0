-- ===== src/Graphql.antt =====
-- internal/controller/generated.go: the GraphQL requests with their variables and answers, and the
-- decoders and encoders of attachments.
pub mod Inputs
pub mod Responses
pub mod Operations
pub mod Further
pub mod Decoding
pub mod Attachments
pub mod Roundtrip
