-- ===== src/Mysql.antt =====
-- data/mysql: the repositories over MySQL. What the database and gorm do with a statement is the
-- parameter `Table` of every definition.
pub mod Table
pub mod Models
pub mod Mapper
pub mod States
pub mod Ledger
pub mod Mails
pub mod Outbox
