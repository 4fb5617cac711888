-- ===== src/Tests.antt =====
-- Runs of the definitions on small inputs.
mod Row
mod Framing
mod Params
mod PgTypes
mod Query
mod Message
mod Notice
mod Unserializer
mod Transaction
mod Connect
mod Attributes
mod Login
mod Resultset
mod SqlState
mod Convert
mod Database
mod Connection
mod Field
mod Stamps
mod Floats
mod Uuids
