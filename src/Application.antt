-- ===== src/Application.antt =====
-- The application layer (src/application): the objects of a running process, the ports, the data
-- transfer objects and the two services.
pub mod Runtime
pub mod Ports
pub mod Dtos
pub mod TransferService
pub mod AccountService
