-- ===== src/Graphql.antt =====
-- The GraphQL transport (internal/transport/graphql): the resolvers and the check of the token before
-- them. gqlgen decodes a request and picks the resolvers; subscriptions are left out.
pub mod Mapping
pub mod Resolver
pub mod Mutations
pub mod Queries
pub mod Schema
pub mod Access
pub mod Escalation
