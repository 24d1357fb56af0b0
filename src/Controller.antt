-- ===== src/Controller.antt =====
-- controller/app/controller-app.cpp: what the controller does with requests, contexts and threads.
mod Examples
pub mod Events
pub mod Objects
pub mod Requests
pub mod Response
pub mod Results
pub mod Schedule
