-- ===== src/Tests.antt =====
-- Concrete servers, connections and tables for the interfaces, and the theorems of the other
-- modules applied to them.
mod Server
mod Sessions
mod Requests
mod Texts
mod Headers
mod Queries
mod Responses
mod Logins
mod Hawks
mod Archives
mod Sockets
